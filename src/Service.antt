-- ===== src/Service.antt =====
-- `AisQueryService` of js/app-service.js: the parameters and the client id in the browser's local
-- storage, and the requests to the backend.
pub mod Saving
pub mod ClientId
pub mod Requests
use Prim.Native.Nat.{bit_and, bit_or}
use ais_store.Prelude.{
  ℕ, suc, ◌+◌, Bool, true, false, not, ◌||◌, Option, none, some, List, [], ◌∷◌, ◌++◌, ◌==◌, ltb,
  if◌then◌else◌,
}
use ais_store.Prelude.Int.{ℤ}
use ais_store.Text.{Text, codes, non_empty}
use ais_store.Uri.{encode_uri_component}
use ais_store.Number.{Moment}
use ais_store.Params.{Params, current_version, clear_params}

-- `$window.localStorage`: the two properties that the service uses; and how many random numbers the
-- page has drawn, since each call of `Math.random` gives another one.
pub record Storage : Type 0 where
  pub params : Option Text
  pub client_id : Option Text
  pub drawn : ℕ

-- What the service calls of its surroundings.
pub record Browser (W : Type 0) : Type 0 where
  -- `JSON.stringify`; `none` where it throws
  pub stringify : Params W → Option Text
  -- `JSON.parse` of a stored text; `none` where it throws, or its value is falsy
  pub parse : Text → Option (Params W)
  -- whether the storage takes the text of the parameters, or throws
  pub accepts : Text → Bool
  -- the values of `Math.random() * 16 | 0`, one by one, over all calls
  pub random : ℕ → ℕ

abbrev pub empty_storage : Storage
empty_storage = record { params = none; client_id = none; drawn = 0 }

-- `reset`, up to the reload of the page
unfoldable pub reset : Storage → Storage
reset s = record s { params = none; client_id = none }

module _ {W : Type 0} (b : Browser W) where
  -- What `JSON.parse(storage.params)` gives.
  stored : Option Text → Option (Params W)
  stored none = none
  stored (some text) = b.parse text

  current : Params W → Option (Params W) → Params W
  current fresh none = fresh
  current fresh (some p) = if not (p.version == current_version) then fresh else p

  -- `getSearchParams`, at the time `now`
  unfoldable pub get_search_params : Moment → ℤ → Storage → Params W
  unfolding stored current
  get_search_params m now s = current (clear_params m now) (stored s.params)

  -- `saveSearchParams`
  save_text : Storage → Option Text → Storage
  save_text s none = s
  save_text s (some text) = if b.accepts text then record s { params = some text } else s

  unfoldable pub save_search_params : Params W → Storage → Storage
  unfolding save_text
  save_search_params p s = save_text s (b.stringify p)

-- `v.toString(16)` for a number below 16
hex_digit : ℕ → ℕ
hex_digit v = if ltb v 10 then b'0' + v else 87 + v

abbrev pub template : Text
template = codes "xxxxxxxx-xxxx-4xxx-yxxx-xxxxxxxxxxxx"

-- The replacement of `x` and `y`, with the draws that are used from the `i`-th on.
fill : (ℕ → ℕ) → ℕ → Text → Text
unfolding hex_digit
fill random i [] = []
fill random i (c ∷ s) =
    let next = fill random (suc i) s in
    let same = fill random i s in
    let r = random i in
    if c == b'x'
    then hex_digit r ∷ next
    else if c == b'y'
    then hex_digit (bit_or (bit_and r 3) 8) ∷ next
    else c ∷ same

-- How many numbers the replacement draws.
placeholders : Text → ℕ
placeholders [] = 0
placeholders (c ∷ s) =
    let rest = placeholders s in if c == b'x' || c == b'y' then suc rest else rest

-- The value of an optional text, if it is not empty.
abbrev pub truthy_text : Option Text → Option Text
truthy_text none = none
truthy_text (some []) = none
truthy_text (some (c ∷ s)) = some (c ∷ s)

module _ {W : Type 0} (b : Browser W) where
  -- `clientId`: the id, and the storage with it. The storage is taken to have room for the id.
  unfoldable pub client_id : Storage → Text × Storage
  unfolding fill placeholders
  client_id s = elim (truthy_text s.client_id) [
    | some id ↦ (id, s)
    | none ↦
        let id = fill b.random s.drawn template in
        (id, record s { client_id = some id; drawn = s.drawn + placeholders template })
  ]

  abbrev pub bool_text : Bool → Text
  bool_text true = codes "true"
  bool_text false = codes "false"

  -- The URLs of the requests: `execute`, `deleteFiles`, `listFiles`, each with the storage that
  -- `clientId` leaves.
  unfoldable pub execute_url : Text → Bool → Storage → Text × Storage
  execute_url params async s =
      let (id, s') = client_id s in
      (
        codes "/downloader/query/execute/"
            ++ (id
                ++ (codes "?async="
                    ++ (bool_text async ++ (codes "&params=" ++ encode_uri_component params)))),
        s',
      )

  unfoldable pub delete_files_url : Storage → Text × Storage
  delete_files_url s =
      let (id, s') = client_id s in (codes "/downloader/query/delete-all/" ++ id, s')

  unfoldable pub list_files_url : Storage → Text × Storage
  list_files_url s = let (id, s') = client_id s in (codes "/downloader/query/list/" ++ id, s')

-- `openFile`, `deleteFile` and `validateFilter`
unfoldable pub open_file_url : Text → Text
open_file_url path = codes "/downloader/query/file/" ++ path

unfoldable pub delete_file_url : Text → Text
delete_file_url path = codes "/downloader/query/delete/" ++ path

unfoldable pub validate_filter_url : Text → Text
validate_filter_url filter =
    codes "/downloader/query/validate-filter?filter=" ++ encode_uri_component filter
