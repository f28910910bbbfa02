-- ===== src/Facet.antt =====
-- The three filter boxes of js/app-ctrl.js: `updateSourceFilter`, `updateTargetFilter` and
-- `updateMessageFilter` read the facets of a box into the parameters. The box is VisualSearch's:
-- its text and its facets are an argument.
pub mod Values
pub mod Source
pub mod Target
pub mod Message
use text.Mathlib.Text.{◌==◌ as str_eq}
use ais_store.Prelude.{String, Option, none, some, List, [], ◌∷◌, ◌++◌, Bool, if◌then◌else◌, foldl}
use ais_store.Text.{Text}
use ais_store.Params.{Params}

-- An object of own properties, as VisualSearch's `facets()` lists them.
abbrev pub Facet : Type 0
Facet = List (String × Text)

pub record FilterBox : Type 0 where
  -- `searchBox.value()`
  pub text : Text
  -- `searchQuery.facets()`
  pub facets : List Facet

-- The categories that each box offers: its `facetMatches`.
abbrev pub source_facet_matches : List String
source_facet_matches = "type" ∷ "bs" ∷ "country" ∷ "region" ∷ []

abbrev pub target_facet_matches : List String
target_facet_matches = "country" ∷ "imo" ∷ "callsign" ∷ "navstat" ∷ "name" ∷ "type" ∷ []

abbrev pub message_facet_matches : List String
message_facet_matches = "country" ∷ "mmsi" ∷ "imo" ∷ "callsign" ∷ "navstat" ∷ "name" ∷ "type" ∷ []

-- `facet.key` where that is truthy: the property is there, and not the empty text.
unfoldable pub given : String → Facet → Option Text
given key [] = none
given key ((k, v) ∷ facet) =
    if str_eq k key then elim v [ [] ↦ none | c ∷ s ↦ some (c ∷ s) ] else given key facet

-- The `if … else if …` over the properties of a facet, in the source's order.
infixr 1 ◌or_else◌
abbrev pub ◌or_else◌ {ℓ} : {A : Type ℓ} → Option A → A → A
none or_else a = a
some b or_else a = b

abbrev on : {W : Type 0} → String → (Text → Params W) → Facet → Option (Params W)
on key action facet = elim (given key facet) [ none ↦ none | some v ↦ some (action v) ]

module _ {W : Type 0} where
  source_step : Params W → Facet → Params W
  source_step p facet =
      on "type" (λ v. record p { source_type = v }) facet
      or_else on "bs" (λ v. record p { source_bs = p.source_bs ++ v ∷ [] }) facet
      or_else on "country" (λ v. record p { source_countries = p.source_countries ++ v ∷ [] }) facet
      or_else on "region" (λ v. record p { source_regions = p.source_regions ++ v ∷ [] }) facet
      or_else p

  -- `updateSourceFilter` up to its update of the URL
  unfoldable pub update_source_filter : FilterBox → Params W → Params W
  unfolding source_step
  update_source_filter box p =
      foldl source_step
        (record p {
          source_txt = box.text;
          source_type = [];
          source_bs = [];
          source_countries = [];
          source_regions = [];
        })
        box.facets

module _ {W : Type 0} where
  target_step : Params W → Facet → Params W
  target_step p facet =
      on "country" (λ v. record p { target_countries = p.target_countries ++ v ∷ [] }) facet
      or_else on "imo" (λ v. record p { target_imos = p.target_imos ++ v ∷ [] }) facet
      or_else on "callsign" (λ v. record p { target_callsigns = p.target_callsigns ++ v ∷ [] })
          facet
      or_else on "navstat" (λ v. record p { target_navstats = p.target_navstats ++ v ∷ [] }) facet
      or_else on "name" (λ v. record p { target_names = p.target_names ++ v ∷ [] }) facet
      or_else on "type" (λ v. record p { target_types = p.target_types ++ v ∷ [] }) facet
      or_else p

  -- `updateTargetFilter` up to its update of the URL
  unfoldable pub update_target_filter : FilterBox → Params W → Params W
  unfolding target_step
  update_target_filter box p =
      foldl target_step
        (record p {
          target_txt = box.text;
          target_countries = [];
          target_imos = [];
          target_callsigns = [];
          target_navstats = [];
          target_names = [];
          target_types = [];
        })
        box.facets

  message_step : Params W → Facet → Params W
  message_step p facet =
      on "country" (λ v. record p { message_countries = p.message_countries ++ v ∷ [] }) facet
      or_else on "mmsi" (λ v. record p { message_mmsi = p.message_mmsi ++ v ∷ [] }) facet
      or_else on "imo" (λ v. record p { message_imos = p.message_imos ++ v ∷ [] }) facet
      or_else on "callsign" (λ v. record p { message_callsigns = p.message_callsigns ++ v ∷ [] })
          facet
      or_else on "navstat" (λ v. record p { message_navstats = p.message_navstats ++ v ∷ [] }) facet
      or_else on "name" (λ v. record p { message_names = p.message_names ++ v ∷ [] }) facet
      or_else on "type" (λ v. record p { message_types = p.message_types ++ v ∷ [] }) facet
      or_else p

  -- `updateMessageFilter` up to its update of the URL
  unfoldable pub update_message_filter : FilterBox → Params W → Params W
  unfolding message_step
  update_message_filter box p =
      foldl message_step
        (record p {
          message_txt = box.text;
          message_countries = [];
          message_mmsi = [];
          message_imos = [];
          message_callsigns = [];
          message_navstats = [];
          message_names = [];
          message_types = [];
        })
        box.facets
