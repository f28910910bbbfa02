-- ===== src/Url/Clauses.antt =====
-- The simple filter against its description as a list of clauses.
use ais_store.Prelude.{
  ltb-zero-suc, String, List, [], ◌∷◌, ◌++◌, ◌||◌, ◌▷◌, length, drop, ◌≡◌, refl, ◌↔◌, append_assoc,
  append-nil, inl, inr, Bool-cases, when,
}
use ais_store.Text.{Text, codes, join, text_eq}
use ais_store.Text.Separated.{prefixed, Shows, Shows-concat, Shows-nil, append-prefixed}
use ais_store.Params.{Params}
use ais_store.Url.{encode_values, comma, clause, encoded_clause, source_type_clause, simple_filter}

abbrev pub and : Text
and = codes " & "

-- The clause of a property, where it has values.
unfoldable pub clause_of : String → List Text → List Text
clause_of name [] = []
clause_of name (v ∷ vs) = (codes name ++ join comma (v ∷ vs)) ∷ []

-- Of the source types `Any` and none give no clause.
unfoldable pub type_clause_of : Text → List Text
type_clause_of type =
    when (text_eq type (codes "SAT") || text_eq type (codes "LIVE"))
      ((codes "s.type=" ++ type) ∷ [])

-- The clauses of the code begin with the separator.
and_keys :
    (codes " & s.type=" ≡ and ++ codes "s.type=")
    × (codes " & s.bs=" ≡ and ++ codes "s.bs=")
    × (codes " & s.country=" ≡ and ++ codes "s.country=")
    × (codes " & s.region=" ≡ and ++ codes "s.region=")
    × (codes " & t.country=" ≡ and ++ codes "t.country=")
    × (codes " & t.imo=" ≡ and ++ codes "t.imo=")
    × (codes " & t.name=" ≡ and ++ codes "t.name=")
    × (codes " & t.cs=" ≡ and ++ codes "t.cs=")
    × (codes " & t.type=" ≡ and ++ codes "t.type=")
    × (codes " & t.navstat=" ≡ and ++ codes "t.navstat=")
    × (codes " & m.country=" ≡ and ++ codes "m.country=")
    × (codes " & m.mmsi=" ≡ and ++ codes "m.mmsi=")
    × (codes " & m.imo=" ≡ and ++ codes "m.imo=")
    × (codes " & m.name=" ≡ and ++ codes "m.name=")
    × (codes " & m.cs=" ≡ and ++ codes "m.cs=")
    × (codes " & m.type=" ≡ and ++ codes "m.type=")
    × (codes " & m.navstat=" ≡ and ++ codes "m.navstat=")
unfolding codes
and_keys = (
  refl, refl, refl, refl, refl, refl, refl, refl, refl, refl, refl, refl, refl, refl, refl, refl,
  refl,
)

module _ (filter : Text) (cs : List Text) (shown : Shows [] and filter cs) where
  clause-Shows :
      (key name : String) (values : List Text)
      → codes key ≡ and ++ codes name
      → Shows [] and (clause key values filter) (cs ++ clause_of name values)
  unfolding clause clause_of
  clause-Shows key name [] e = rw append-nil shown
  clause-Shows key name (v ∷ vs) e =
      rw (ltb-zero-suc (length vs), e, append_assoc and) (Shows-concat [] and filter _ cs shown)

  encoded_clause-Shows :
      (key name : String) (values : List Text)
      → codes key ≡ and ++ codes name
      → Shows [] and
          (encoded_clause key values filter)
          (cs ++ clause_of name (encode_values values))
  unfolding encoded_clause clause_of encode_values
  encoded_clause-Shows key name [] e = rw append-nil shown
  encoded_clause-Shows key name (v ∷ vs) e =
      rw (ltb-zero-suc (length vs), e, append_assoc and) (Shows-concat [] and filter _ cs shown)

  source_type_clause-Shows :
      (type : Text) → Shows [] and (source_type_clause type filter) (cs ++ type_clause_of type)
  unfolding source_type_clause type_clause_of
  source_type_clause-Shows type =
      elim (Bool-cases (text_eq type (codes "SAT") || text_eq type (codes "LIVE"))) [
        | inl e ↦ rw e (rw (and_keys.0, append_assoc and) (Shows-concat [] and filter _ cs shown))
        | inr e ↦ rw e (rw append-nil shown)
      ]

by_clauses :
    (cs : List Text) (filter : Text)
    → Shows [] and filter cs
    → (drop 3 filter ≡ join and cs) × ((filter ≡ []) ↔ (cs ≡ []))
unfolding codes prefixed join
by_clauses [] filter e = (rw e, (λ h. refl, λ h. e))
by_clauses (c ∷ cs) filter e = (rw e (append-prefixed [] and c cs), (λ h. cc, λ h. cc))

module _ {W : Type 0} where
  -- The clauses of the simple filter, in order.
  unfoldable pub clauses : Params W → List Text
  clauses p =
      []
      ++ type_clause_of p.source_type
      ++ clause_of "s.bs=" (encode_values p.source_bs)
      ++ clause_of "s.country=" p.source_countries
      ++ clause_of "s.region=" (encode_values p.source_regions)
      ++ clause_of "t.country=" p.target_countries
      ++ clause_of "t.imo=" (encode_values p.target_imos)
      ++ clause_of "t.name=" (encode_values p.target_names)
      ++ clause_of "t.cs=" (encode_values p.target_callsigns)
      ++ clause_of "t.type=" p.target_types
      ++ clause_of "t.navstat=" (encode_values p.target_navstats)
      ++ clause_of "m.country=" p.message_countries
      ++ clause_of "m.mmsi=" (encode_values p.message_mmsi)
      ++ clause_of "m.imo=" (encode_values p.message_imos)
      ++ clause_of "m.name=" (encode_values p.message_names)
      ++ clause_of "m.cs=" (encode_values p.message_callsigns)
      ++ clause_of "m.type=" p.message_types
      ++ clause_of "m.navstat=" (encode_values p.message_navstats)

  simple_filter-Shows : (p : Params W) → Shows [] and (simple_filter p) (clauses p)
  unfolding simple_filter clauses
  simple_filter-Shows p =
      Shows-nil and
      ▷ (λ h. source_type_clause-Shows _ _ h p.source_type)
      ▷ (λ h. encoded_clause-Shows _ _ h " & s.bs=" "s.bs=" p.source_bs and_keys.1)
      ▷ (λ h. clause-Shows _ _ h " & s.country=" "s.country=" p.source_countries and_keys.2)
      ▷ (λ h. encoded_clause-Shows _ _ h " & s.region=" "s.region=" p.source_regions and_keys.3)
      ▷ (λ h. clause-Shows _ _ h " & t.country=" "t.country=" p.target_countries and_keys.4)
      ▷ (λ h. encoded_clause-Shows _ _ h " & t.imo=" "t.imo=" p.target_imos and_keys.5)
      ▷ (λ h. encoded_clause-Shows _ _ h " & t.name=" "t.name=" p.target_names and_keys.6)
      ▷ (λ h. encoded_clause-Shows _ _ h " & t.cs=" "t.cs=" p.target_callsigns and_keys.7)
      ▷ (λ h. clause-Shows _ _ h " & t.type=" "t.type=" p.target_types and_keys.8)
      ▷ (λ h. encoded_clause-Shows _ _ h " & t.navstat=" "t.navstat=" p.target_navstats and_keys.9)
      ▷ (λ h. clause-Shows _ _ h " & m.country=" "m.country=" p.message_countries and_keys.10)
      ▷ (λ h. encoded_clause-Shows _ _ h " & m.mmsi=" "m.mmsi=" p.message_mmsi and_keys.11)
      ▷ (λ h. encoded_clause-Shows _ _ h " & m.imo=" "m.imo=" p.message_imos and_keys.12)
      ▷ (λ h. encoded_clause-Shows _ _ h " & m.name=" "m.name=" p.message_names and_keys.13)
      ▷ (λ h. encoded_clause-Shows _ _ h " & m.cs=" "m.cs=" p.message_callsigns and_keys.14)
      ▷ (λ h. clause-Shows _ _ h " & m.type=" "m.type=" p.message_types and_keys.15)
      ▷ (λ h.
          encoded_clause-Shows _ _ h " & m.navstat=" "m.navstat=" p.message_navstats and_keys.16)

  -- The filter without its first three characters is the clauses with ` & ` between them, and the
  -- filter is empty exactly where there is no clause.
  pub simple_filter_lem :
      (p : Params W)
      → (drop 3 (simple_filter p) ≡ join and (clauses p))
        × ((simple_filter p ≡ []) ↔ (clauses p ≡ []))
  simple_filter_lem p = by_clauses (clauses p) (simple_filter p) (simple_filter-Shows p)
