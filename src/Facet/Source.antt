-- ===== src/Facet/Source.antt =====
-- `updateSourceFilter` against the description in Facet/Values.antt.
use ais_store.Prelude.{
  List, [], ◌∷◌, ◌++◌, foldl, ◌≡◌, arith, last_or, inl, inr, Option-cases, append_assoc, append-nil,
}
use ais_store.Params.{Params}
use ais_store.Facet.{Facet, FilterBox, given, source_step, update_source_filter}
use ais_store.Facet.Values.{source_keys, chosen, values_of}

module _ {W : Type 0} where
  foldl-source_step :
      (fs : List Facet) (p : Params W)
      → foldl source_step p fs ≡ record p {
        source_type = last_or p.source_type (values_of source_keys "type" fs);
        source_bs = p.source_bs ++ values_of source_keys "bs" fs;
        source_countries = p.source_countries ++ values_of source_keys "country" fs;
        source_regions = p.source_regions ++ values_of source_keys "region" fs;
      }
  unfolding values_of chosen source_step
  foldl-source_step [] p = simp append-nil
  foldl-source_step (f ∷ fs) p = elim (Option-cases (given "type" f)) [
    | inr (v, e0) ↦ ground (arith, foldl-source_step fs (record p { source_type = v }))
    | inl e0 ↦ elim (Option-cases (given "bs" f)) [
      | inr (v, e1) ↦ ground (
        arith,
        foldl-source_step fs (record p { source_bs = p.source_bs ++ v ∷ [] }),
        append_assoc p.source_bs (v ∷ []) (values_of source_keys "bs" fs),
      )
      | inl e1 ↦ elim (Option-cases (given "country" f)) [
        | inr (v, e2) ↦ ground (
          arith,
          foldl-source_step fs (record p { source_countries = p.source_countries ++ v ∷ [] }),
          append_assoc p.source_countries (v ∷ []) (values_of source_keys "country" fs),
        )
        | inl e2 ↦ elim (Option-cases (given "region" f)) [
          | inr (v, e3) ↦ ground (
            arith,
            foldl-source_step fs (record p { source_regions = p.source_regions ++ v ∷ [] }),
            append_assoc p.source_regions (v ∷ []) (values_of source_keys "region" fs),
          )
          | inl e3 ↦ ground (arith, foldl-source_step fs p)
        ]
      ]
    ]
  ]

  -- `updateSourceFilter` replaces what was there: the source type is the value of the last facet that
  -- goes to `type`, or empty, each list holds the values that go to its property, in order, and no
  -- other parameter changes.
  pub update_source_filter_lem :
      (box : FilterBox) (p : Params W)
      → update_source_filter box p ≡ record p {
        source_txt = box.text;
        source_type = last_or [] (values_of source_keys "type" box.facets);
        source_bs = values_of source_keys "bs" box.facets;
        source_countries = values_of source_keys "country" box.facets;
        source_regions = values_of source_keys "region" box.facets;
      }
  unfolding update_source_filter
  update_source_filter_lem box p = foldl-source_step box.facets _
