-- ===== src/Facet/Values.antt =====
-- An independent description of the loops over the facets: each facet goes to the first property,
-- in the order of the tests, that it has, and each list is what goes to its property, in order.
use text.Mathlib.Text.{◌==◌ as str_eq}
use ais_store.Prelude.{String, Option, none, some, List, [], ◌∷◌, if◌then◌else◌}
use ais_store.Text.{Text}
use ais_store.Facet.{Facet, given}

-- The order of the tests in each loop.
abbrev pub source_keys : List String
source_keys = "type" ∷ "bs" ∷ "country" ∷ "region" ∷ []

abbrev pub target_keys : List String
target_keys = "country" ∷ "imo" ∷ "callsign" ∷ "navstat" ∷ "name" ∷ "type" ∷ []

abbrev pub message_keys : List String
message_keys = "country" ∷ "mmsi" ∷ "imo" ∷ "callsign" ∷ "navstat" ∷ "name" ∷ "type" ∷ []

-- The first of the keys that the facet has, with its value.
unfoldable pub chosen : List String → Facet → Option (String × Text)
chosen [] facet = none
chosen (k ∷ ks) facet = elim (given k facet) [ none ↦ chosen ks facet | some v ↦ some (k, v) ]

abbrev pub keep : String → Option (String × Text) → Option Text
keep key none = none
keep key (some (k, v)) = if str_eq k key then some v else none

-- The values that go to `key`.
unfoldable pub values_of : List String → String → List Facet → List Text
values_of keys key [] = []
values_of keys key (f ∷ fs) = elim (keep key (chosen keys f)) [
  | none ↦ values_of keys key fs
  | some v ↦ v ∷ values_of keys key fs
]
