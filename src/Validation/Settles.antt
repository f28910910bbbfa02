-- ===== src/Validation/Settles.antt =====
-- What the field of `filterValidate` is judged by, when nothing is pending any more.
use ais_store.Prelude.{
  ℕ, Bool, true, Option, none, some, List, [], ◌∷◌, ◌≡◌, refl, ◌∙◌, ◌⊎◌, inl, inr, foldl, ap, ◌▷◌,
  last_or, ==_iff, ◌==◌,
}
use ais_store.Text.{Text}
use ais_store.Validation.{
  Directive, new, cancel, cancel_promise, validate_async, find_timeout, fire_found, fire, verdict,
  answer_found, answer,
}

-- Nothing is pending but the timeout that `promise` names.
abbrev pub IsCoherent : Directive → Type 0
IsCoherent d =
    (d.pending ≡ [])
    ⊎ ((id : ℕ) × (value : Text) × (d.pending ≡ (id, value) ∷ []) × (d.promise ≡ some id))

==_refl : (n : ℕ) → (n == n) ≡ true
==_refl n = (==_iff n n).1 refl

cancel_self : (id : ℕ) (value : Text) → cancel id ((id, value) ∷ []) ≡ []
unfolding cancel
cancel_self id value = rw (==_refl id)

cancel_nil : (promise : Option ℕ) → cancel_promise promise [] ≡ []
unfolding cancel
cancel_nil none = refl
cancel_nil (some id) = refl

validate_async-pending :
    (value : Text) (d : Directive)
    → IsCoherent d
    → (validate_async value d).pending ≡ (d.next, value) ∷ []
unfolding validate_async
validate_async-pending value d (inl e) = rw e (ap ((d.next, value) ∷◌) (cancel_nil d.promise))
validate_async-pending value d (inr (id, old, e, p)) = rw (e, p, cancel_self id old) refl

abbrev pub edit : Directive → Text → Directive
edit d value = validate_async value d

-- After the edits the last one alone is pending.
edits-pending :
    (values : List Text) (value : Text) (d : Directive)
    → IsCoherent d
    → let d' = foldl edit (edit d value) values in
      (id : ℕ) × (d'.pending ≡ (id, last_or value values) ∷ [])
      × (d'.promise ≡ some id)
      × (d'.in_flight ≡ d.in_flight)
unfolding validate_async
edits-pending [] value d h = (d.next, validate_async-pending value d h, refl, refl)
edits-pending (v ∷ values) value d h =
    edits-pending values v (edit d value)
      (inr (d.next, value, validate_async-pending value d h, refl))

-- One timeout that is pending fires, and its request is answered.
abbrev pub settle : ℕ → Bool → Directive → Directive
settle id valid d = answer (some valid) 0 (fire id d)

abbrev state : Option ℕ → List (ℕ × Text) → ℕ → List Text → Option (Text × Bool) → Directive
state promise pending next in_flight validity = record {
  promise = promise;
  pending = pending;
  next = next;
  in_flight = in_flight;
  validity = validity;
}

fire_lem :
    (id : ℕ) (value : Text) (promise : Option ℕ) (next : ℕ) (validity : Option (Text × Bool))
    → fire id (state promise ((id, value) ∷ []) next [] validity)
      ≡ state promise [] next (value ∷ []) validity
unfolding fire find_timeout fire_found
fire_lem id value promise next validity = rw (==_refl id) (rw (cancel_self id value) refl)

settle_lem :
    (id : ℕ) (value : Text) (valid : Bool) (d : Directive)
    → d.pending ≡ (id, value) ∷ []
    → d.in_flight ≡ []
    → settle id valid d ≡ state none [] d.next [] (some (value, valid))
unfolding answer answer_found verdict
settle_lem id value valid d e f =
    rw (e, f) (rw (fire_lem id value d.promise d.next d.validity) refl)

-- Where nothing is in flight and no stray timeout is pending, any number of edits leaves one timeout,
-- for the last of them; when that has fired and the backend has answered, nothing is pending and
-- the field is judged by the answer for the last edit.
pub settle-edits :
    (value : Text) (values : List Text) (valid : Bool) (d : Directive)
    → IsCoherent d
    → d.in_flight ≡ []
    → (id : ℕ) × ((foldl edit d (value ∷ values)).promise ≡ some id)
      × (settle id valid (foldl edit d (value ∷ values)) ≡ record (foldl edit d (value ∷ values)) {
        promise = none;
        pending = [];
        in_flight = [];
        validity = some (last_or value values, valid);
      })
settle-edits value values valid d h f =
    let (id, pending, promise, in_flight) = edits-pending values value d h in
    (
      id,
      promise,
      settle_lem id (last_or value values) valid (foldl edit (edit d value) values) pending
          (in_flight ∙ f),
    )

-- Three edits: the first is answered between the other two, whose timeouts then both fire, and the
-- answer for the third comes first.
abbrev pub overtaken : Text → Text → Text → Bool → Bool → Bool → Directive
overtaken a b c first second third =
    edit new a
    ▷ fire 0
    ▷ (λ d. edit d b)
    ▷ answer (some first) 0
    ▷ (λ d. edit d c)
    ▷ fire 1
    ▷ fire 2
    ▷ answer (some third) 0
    ▷ answer (some second) 0

-- After three edits, whatever their texts, it can happen that nothing is pending any more and the
-- field is judged by the answer for the second: the answer for the first came between the second
-- and the third, the timeouts of both fired, and the backend answered the third first.
pub overtaken_lem :
    (a b c : Text) (first second third : Bool)
    → let d = overtaken a b c first second third in
      (d.pending ≡ []) × (d.in_flight ≡ []) × (d.promise ≡ none) × (d.validity ≡ some (b, second))
unfolding validate_async fire answer find_timeout fire_found answer_found cancel verdict
overtaken_lem a b c first second third = (refl, refl, refl, refl)
