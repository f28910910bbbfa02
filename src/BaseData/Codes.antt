-- ===== src/BaseData/Codes.antt =====
-- Encoding the values of the tables of js/base-data.js, which `updateDownloadUrl` leaves out for
-- countries and ship types.
use text.Mathlib.Text.{◌==◌ as str_eq}
use mathlib.Core.Bool.{and-eq-true_iff}
use ais_store.Prelude.{
  false, Option, some, none, ◌⊎◌, if◌then◌else◌, String, List, [], ◌∷◌, Bool, true, any, all, ◌≡◌,
  refl, All, inl, inr, Bool-cases,
}
use ais_store.Text.{Text, codes, text_eq, text_eq_iff}
use ais_store.Uri.{is_unreserved}
use ais_store.Uri.Safe.{encode_uri_component-of_is_unreserved}
use ais_store.BaseData.{ship_types, navstat_values, source_types}
use ais_store.BaseData.Countries.{country_list}
use ais_store.BaseData.Offered.{source_value_matches, target_value_matches, message_value_matches}
use ais_store.Url.{clause, encoded_clause, encode_values}

-- A box offers the rows for a category.
abbrev pub IsOffered : String → List (String × String) → Type 0
IsOffered facet rows =
    (source_value_matches facet ≡ some rows)
    ⊎ (target_value_matches facet ≡ some rows)
    ⊎ (message_value_matches facet ≡ some rows)

abbrev pub is_value : List (String × String) → Text → Bool
is_value rows v = any (λ r. text_eq (codes r.1) v) rows

abbrev is_safe : Text → Bool
is_safe = all is_unreserved

abbrev is_safe_table : List (String × String) → Bool
is_safe_table rows = all (λ r. is_safe (codes r.1)) rows

safe_tables :
    (is_safe_table country_list ≡ true)
    × (is_safe_table ship_types ≡ true)
    × (is_safe_table navstat_values ≡ true)
    × (is_safe_table source_types ≡ true)
unfolding codes is_unreserved
safe_tables = (refl, refl, refl, refl)

-- A choice between tables that are safe is safe.
safe_choice :
    (b : Bool) (here rows : List (String × String)) (o : Option (List (String × String)))
    → is_safe_table here ≡ true
    → (o ≡ some rows → is_safe_table rows ≡ true)
    → (if b then some here else o) ≡ some rows
    → is_safe_table rows ≡ true
safe_choice true here rows o h rest e = let same : here ≡ rows = cc in rw (← same) h
safe_choice false here rows o h rest e = rest e

safe_none : (rows : List (String × String)) → none ≡ some rows → is_safe_table rows ≡ true
safe_none rows e = cc

target_value_matches-safe :
    (facet : String) (rows : List (String × String))
    → target_value_matches facet ≡ some rows
    → is_safe_table rows ≡ true
unfolding target_value_matches
target_value_matches-safe facet rows =
    safe_choice (str_eq facet "country") country_list rows _ safe_tables.0 (
      safe_choice (str_eq facet "type") ship_types rows _ safe_tables.1 (
        safe_choice (str_eq facet "navstat") navstat_values rows none safe_tables.2
          (safe_none rows)))

IsOffered-safe :
    (facet : String) (rows : List (String × String))
    → IsOffered facet rows
    → is_safe_table rows ≡ true
unfolding source_value_matches target_value_matches message_value_matches
IsOffered-safe facet rows (inl e) =
    safe_choice (str_eq facet "type") source_types rows _ safe_tables.3
      (safe_choice (str_eq facet "country") country_list rows none safe_tables.0 (safe_none rows)) e
IsOffered-safe facet rows (inr (inl e)) = target_value_matches-safe facet rows e
IsOffered-safe facet rows (inr (inr e)) = target_value_matches-safe facet rows e

is_value-is_safe :
    (rows : List (String × String)) (v : Text)
    → all (λ r. is_safe (codes r.1)) rows ≡ true
    → is_value rows v ≡ true
    → is_safe v ≡ true
is_value-is_safe [] v h e = cc
is_value-is_safe (r ∷ rows) v h e = elim (Bool-cases (text_eq (codes r.1) v)) [
  | inl same ↦ rw (← (text_eq_iff _ _).0 same) ((and-eq-true_iff _ _).0 h).0
  | inr other ↦ is_value-is_safe rows v ((and-eq-true_iff _ _).0 h).1 (rw other at e)
]

All-of_all : (s : Text) → is_safe s ≡ true → All (λ c. is_unreserved c ≡ true) s
All-of_all [] h = tt
All-of_all (c ∷ s) h = let (p, q) = (and-eq-true_iff _ _).0 h in (p, All-of_all s q)

module _ (facet : String) (rows : List (String × String)) (offered : IsOffered facet rows) where
  encode_values-of_offered :
      (vs : List Text) → All (λ v. is_value rows v ≡ true) vs → encode_values vs ≡ vs
  unfolding encode_values
  encode_values-of_offered [] h = refl
  encode_values-of_offered (v ∷ vs) (p, h) = rw (
    encode_uri_component-of_is_unreserved v
        (All-of_all v (is_value-is_safe rows v (IsOffered-safe facet rows offered) p)),
    encode_values-of_offered vs h,
  )

  -- For values of a table that one of the boxes offers for a category, a clause with its values
  -- encoded and one without are the same.
  pub clause-eq-encoded_clause :
      (key : String) (vs : List Text) (filter : Text)
      → All (λ v. is_value rows v ≡ true) vs
      → clause key vs filter ≡ encoded_clause key vs filter
  unfolding clause encoded_clause
  clause-eq-encoded_clause key vs filter h = rw (encode_values-of_offered vs h)
