-- ===== src/Facet/Target.antt =====
-- `updateTargetFilter` against the description in Facet/Values.antt.
use ais_store.Prelude.{
  List, [], ◌∷◌, ◌++◌, foldl, ◌≡◌, arith, inl, inr, Option-cases, append_assoc, append-nil,
}
use ais_store.Params.{Params}
use ais_store.Facet.{Facet, FilterBox, given, target_step, update_target_filter}
use ais_store.Facet.Values.{target_keys, chosen, values_of}

module _ {W : Type 0} where
  foldl-target_step :
      (fs : List Facet) (p : Params W)
      → foldl target_step p fs ≡ record p {
        target_countries = p.target_countries ++ values_of target_keys "country" fs;
        target_imos = p.target_imos ++ values_of target_keys "imo" fs;
        target_callsigns = p.target_callsigns ++ values_of target_keys "callsign" fs;
        target_navstats = p.target_navstats ++ values_of target_keys "navstat" fs;
        target_names = p.target_names ++ values_of target_keys "name" fs;
        target_types = p.target_types ++ values_of target_keys "type" fs;
      }
  unfolding values_of chosen target_step
  foldl-target_step [] p = simp append-nil
  foldl-target_step (f ∷ fs) p = elim (Option-cases (given "country" f)) [
    | inr (v, e0) ↦ ground (
      arith,
      foldl-target_step fs (record p { target_countries = p.target_countries ++ v ∷ [] }),
      append_assoc p.target_countries (v ∷ []) (values_of target_keys "country" fs),
    )
    | inl e0 ↦ elim (Option-cases (given "imo" f)) [
      | inr (v, e1) ↦ ground (
        arith,
        foldl-target_step fs (record p { target_imos = p.target_imos ++ v ∷ [] }),
        append_assoc p.target_imos (v ∷ []) (values_of target_keys "imo" fs),
      )
      | inl e1 ↦ elim (Option-cases (given "callsign" f)) [
        | inr (v, e2) ↦ ground (
          arith,
          foldl-target_step fs (record p { target_callsigns = p.target_callsigns ++ v ∷ [] }),
          append_assoc p.target_callsigns (v ∷ []) (values_of target_keys "callsign" fs),
        )
        | inl e2 ↦ elim (Option-cases (given "navstat" f)) [
          | inr (v, e3) ↦ ground (
            arith,
            foldl-target_step fs (record p { target_navstats = p.target_navstats ++ v ∷ [] }),
            append_assoc p.target_navstats (v ∷ []) (values_of target_keys "navstat" fs),
          )
          | inl e3 ↦ elim (Option-cases (given "name" f)) [
            | inr (v, e4) ↦ ground (
              arith,
              foldl-target_step fs (record p { target_names = p.target_names ++ v ∷ [] }),
              append_assoc p.target_names (v ∷ []) (values_of target_keys "name" fs),
            )
            | inl e4 ↦ elim (Option-cases (given "type" f)) [
              | inr (v, e5) ↦ ground (
                arith,
                foldl-target_step fs (record p { target_types = p.target_types ++ v ∷ [] }),
                append_assoc p.target_types (v ∷ []) (values_of target_keys "type" fs),
              )
              | inl e5 ↦ ground (arith, foldl-target_step fs p)
            ]
          ]
        ]
      ]
    ]
  ]

  -- `updateTargetFilter` replaces what was there: each list holds the values that go to its
  -- property, in order, and no parameter but those of the target box changes.
  pub update_target_filter_lem :
      (box : FilterBox) (p : Params W)
      → update_target_filter box p ≡ record p {
        target_txt = box.text;
        target_countries = values_of target_keys "country" box.facets;
        target_imos = values_of target_keys "imo" box.facets;
        target_callsigns = values_of target_keys "callsign" box.facets;
        target_navstats = values_of target_keys "navstat" box.facets;
        target_names = values_of target_keys "name" box.facets;
        target_types = values_of target_keys "type" box.facets;
      }
  unfolding update_target_filter
  update_target_filter_lem box p = foldl-target_step box.facets _
