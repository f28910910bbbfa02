-- ===== src/Facet/Message.antt =====
-- `updateMessageFilter` against the description in Facet/Values.antt.
use ais_store.Prelude.{
  List, [], ◌∷◌, ◌++◌, foldl, ◌≡◌, arith, inl, inr, Option-cases, append_assoc, append-nil,
}
use ais_store.Params.{Params}
use ais_store.Facet.{Facet, FilterBox, given, message_step, update_message_filter}
use ais_store.Facet.Values.{message_keys, chosen, values_of}

module _ {W : Type 0} where
  foldl-message_step :
      (fs : List Facet) (p : Params W)
      → foldl message_step p fs ≡ record p {
        message_countries = p.message_countries ++ values_of message_keys "country" fs;
        message_mmsi = p.message_mmsi ++ values_of message_keys "mmsi" fs;
        message_imos = p.message_imos ++ values_of message_keys "imo" fs;
        message_callsigns = p.message_callsigns ++ values_of message_keys "callsign" fs;
        message_navstats = p.message_navstats ++ values_of message_keys "navstat" fs;
        message_names = p.message_names ++ values_of message_keys "name" fs;
        message_types = p.message_types ++ values_of message_keys "type" fs;
      }
  unfolding values_of chosen message_step
  foldl-message_step [] p = simp append-nil
  foldl-message_step (f ∷ fs) p = elim (Option-cases (given "country" f)) [
    | inr (v, e0) ↦ ground (
      arith,
      foldl-message_step fs (record p { message_countries = p.message_countries ++ v ∷ [] }),
      append_assoc p.message_countries (v ∷ []) (values_of message_keys "country" fs),
    )
    | inl e0 ↦ elim (Option-cases (given "mmsi" f)) [
      | inr (v, e1) ↦ ground (
        arith,
        foldl-message_step fs (record p { message_mmsi = p.message_mmsi ++ v ∷ [] }),
        append_assoc p.message_mmsi (v ∷ []) (values_of message_keys "mmsi" fs),
      )
      | inl e1 ↦ elim (Option-cases (given "imo" f)) [
        | inr (v, e2) ↦ ground (
          arith,
          foldl-message_step fs (record p { message_imos = p.message_imos ++ v ∷ [] }),
          append_assoc p.message_imos (v ∷ []) (values_of message_keys "imo" fs),
        )
        | inl e2 ↦ elim (Option-cases (given "callsign" f)) [
          | inr (v, e3) ↦ ground (
            arith,
            foldl-message_step fs (record p { message_callsigns = p.message_callsigns ++ v ∷ [] }),
            append_assoc p.message_callsigns (v ∷ []) (values_of message_keys "callsign" fs),
          )
          | inl e3 ↦ elim (Option-cases (given "navstat" f)) [
            | inr (v, e4) ↦ ground (
              arith,
              foldl-message_step fs (record p { message_navstats = p.message_navstats ++ v ∷ [] }),
              append_assoc p.message_navstats (v ∷ []) (values_of message_keys "navstat" fs),
            )
            | inl e4 ↦ elim (Option-cases (given "name" f)) [
              | inr (v, e5) ↦ ground (
                arith,
                foldl-message_step fs (record p { message_names = p.message_names ++ v ∷ [] }),
                append_assoc p.message_names (v ∷ []) (values_of message_keys "name" fs),
              )
              | inl e5 ↦ elim (Option-cases (given "type" f)) [
                | inr (v, e6) ↦ ground (
                  arith,
                  foldl-message_step fs (record p { message_types = p.message_types ++ v ∷ [] }),
                  append_assoc p.message_types (v ∷ []) (values_of message_keys "type" fs),
                )
                | inl e6 ↦ ground (arith, foldl-message_step fs p)
              ]
            ]
          ]
        ]
      ]
    ]
  ]

  -- `updateMessageFilter` replaces what was there: each list holds the values that go to its
  -- property, in order, and no parameter but those of the message box changes.
  pub update_message_filter_lem :
      (box : FilterBox) (p : Params W)
      → update_message_filter box p ≡ record p {
        message_txt = box.text;
        message_countries = values_of message_keys "country" box.facets;
        message_mmsi = values_of message_keys "mmsi" box.facets;
        message_imos = values_of message_keys "imo" box.facets;
        message_callsigns = values_of message_keys "callsign" box.facets;
        message_navstats = values_of message_keys "navstat" box.facets;
        message_names = values_of message_keys "name" box.facets;
        message_types = values_of message_keys "type" box.facets;
      }
  unfolding update_message_filter
  update_message_filter_lem box p = foldl-message_step box.facets _
