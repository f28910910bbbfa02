-- ===== src/Validation.antt =====
-- The directive `filterValidate` of js/app-directives.js: each edit of the advanced filter schedules
-- a request to the backend, half a second later, which says whether the filter is valid. A timeout
-- is named by a number, and the requests that were sent are answered in any order.
pub mod Settles
use ais_store.Prelude.{
  ℕ, zero, suc, ◌+◌, Bool, true, false, not, Option, none, some, List, [], ◌∷◌, ◌++◌, ◌==◌,
  if◌then◌else◌, get_elem?, remove_at,
}
use ais_store.Text.{Text}

pub record Directive : Type 0 where
  -- the variable `promise`
  pub promise : Option ℕ
  -- the timeouts that are pending, each with the text of its edit, and the number of the next one
  pub pending : List (ℕ × Text)
  pub next : ℕ
  -- the texts of the requests that are not answered
  pub in_flight : List Text
  -- what `$setValidity` said last, with the text that was judged
  pub validity : Option (Text × Bool)

abbrev pub new : Directive
new = record { promise = none; pending = []; next = 0; in_flight = []; validity = none }

-- `$timeout.cancel`: it does nothing if the timeout has fired
unfoldable pub cancel : ℕ → List (ℕ × Text) → List (ℕ × Text)
cancel id [] = []
cancel id ((i, value) ∷ ts) = let rest = cancel id ts in if i == id then rest else (i, value) ∷ rest

abbrev cancel_promise : Option ℕ → List (ℕ × Text) → List (ℕ × Text)
cancel_promise none ts = ts
cancel_promise (some id) ts = cancel id ts

-- The parser, which runs `validateAsync` at each edit.
unfoldable pub validate_async : Text → Directive → Directive
unfolding cancel
validate_async value d = record d {
  pending = (d.next, value) ∷ cancel_promise d.promise d.pending;
  promise = some d.next;
  next = suc d.next;
}

-- The timeout `id` fires: its function calls `validateFilter`.
pub find_timeout : ℕ → List (ℕ × Text) → Option Text
find_timeout id [] = none
find_timeout id ((i, value) ∷ ts) = if i == id then some value else find_timeout id ts

fire_found : ℕ → Option Text → Directive → Directive
fire_found id none d = d
fire_found id (some value) d = record d {
  pending = cancel id d.pending;
  in_flight = value ∷ d.in_flight;
}

unfoldable pub fire : ℕ → Directive → Directive
unfolding find_timeout fire_found cancel
fire id d = fire_found id (find_timeout id d.pending) d

-- The k-th request in flight is answered: by the verdict, or by an error.
verdict : Option Bool → Text → Option (Text × Bool) → Option (Text × Bool)
verdict none value old = old
verdict (some valid) value old = some (value, valid)

answer_found : Option Bool → ℕ → Option Text → Directive → Directive
unfolding verdict
answer_found result k none d = d
answer_found result k (some value) d = record d {
  in_flight = remove_at k d.in_flight;
  validity = verdict result value d.validity;
  promise = none;
}

unfoldable pub answer : Option Bool → ℕ → Directive → Directive
unfolding answer_found
answer result k d = answer_found result k (get_elem? d.in_flight k) d
