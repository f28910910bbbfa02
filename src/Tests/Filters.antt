-- ===== src/Tests/Filters.antt =====
-- The filter boxes, the area and the interval.
use ais_store.Prelude.{ℕ, true, false, some, List, [], ◌∷◌, ◌≡◌, refl, last_or, All}
use ais_store.Prelude.Int.{pos, ◌+ℤ◌}
use ais_store.Text.{codes}
use ais_store.Number.Whole.{whole, whole_dates, whole-IsOrdered}
use ais_store.Params.{Params, Area}
use ais_store.Facet.{update_source_filter, update_target_filter, update_message_filter, given}
use ais_store.Facet.Values.{source_keys, target_keys, message_keys, values_of}
use ais_store.Facet.Source.{update_source_filter_lem}
use ais_store.Facet.Target.{update_target_filter_lem}
use ais_store.Facet.Message.{update_message_filter_lem}
use ais_store.Area.{update_area}
use ais_store.Area.Bounds.{Covers, IsTight, update_area-Covers, update_area-IsTight}
use ais_store.AreaMap.{AreaMap, Projection, add_feature}
use ais_store.AreaMap.Quiescent.{add_feature-Covers}
use ais_store.Interval.{validate_time_interval}
use ais_store.Tests.Samples.{fresh, sample, source_box, target_box, message_box}

-- What stood there before is gone, and the unknown facet of the target box is left out.
filters_run :
    ((update_source_filter source_box sample).source_countries ≡ codes "DNK" ∷ [])
    × ((update_target_filter target_box sample).target_names ≡ [])
    × ((update_target_filter target_box sample).target_imos ≡ codes "42" ∷ [])
    × ((update_message_filter message_box sample).message_mmsi ≡ codes "7" ∷ codes "8" ∷ [])
unfolding update_source_filter update_target_filter update_message_filter given codes
filters_run = (refl, refl, refl, refl)

update_source_filter_lem_example : update_source_filter source_box sample ≡ record sample {
  source_txt = source_box.text;
  source_type = last_or [] (values_of source_keys "type" source_box.facets);
  source_bs = values_of source_keys "bs" source_box.facets;
  source_countries = values_of source_keys "country" source_box.facets;
  source_regions = values_of source_keys "region" source_box.facets;
}
update_source_filter_lem_example = update_source_filter_lem source_box sample

update_target_filter_lem_example : (update_target_filter target_box sample) ≡ record sample {
  target_txt = target_box.text;
  target_countries = values_of target_keys "country" target_box.facets;
  target_imos = values_of target_keys "imo" target_box.facets;
  target_callsigns = values_of target_keys "callsign" target_box.facets;
  target_navstats = values_of target_keys "navstat" target_box.facets;
  target_names = values_of target_keys "name" target_box.facets;
  target_types = values_of target_keys "type" target_box.facets;
}
update_target_filter_lem_example = update_target_filter_lem target_box sample

update_message_filter_lem_example : (update_message_filter message_box sample) ≡ record sample {
  message_txt = message_box.text;
  message_countries = values_of message_keys "country" message_box.facets;
  message_mmsi = values_of message_keys "mmsi" message_box.facets;
  message_imos = values_of message_keys "imo" message_box.facets;
  message_callsigns = values_of message_keys "callsign" message_box.facets;
  message_navstats = values_of message_keys "navstat" message_box.facets;
  message_names = values_of message_keys "name" message_box.facets;
  message_types = values_of message_keys "type" message_box.facets;
}
update_message_filter_lem_example = update_message_filter_lem message_box sample

abbrev track : List (ℕ × ℕ)
track = (8, 57) ∷ (13, 55) ∷ (10, 58) ∷ []

abbrev boxed : Area ℕ
boxed = record { max_lat = some 58; max_lon = some 13; min_lat = some 55; min_lon = some 8 }

update_area_run : (update_area (some track) fresh).area ≡ boxed
unfolding update_area
update_area_run = refl

update_area-Covers_example :
    All (Covers whole-IsOrdered (update_area (some track) fresh).area) track
update_area-Covers_example = update_area-Covers whole-IsOrdered track fresh

update_area-IsTight_example : IsTight track (update_area (some track) fresh).area
update_area-IsTight_example =
    update_area-IsTight whole-IsOrdered (8, 57) ((13, 55) ∷ (10, 58) ∷ []) fresh

-- A projection that keeps the coordinates.
abbrev flat : Projection ℕ
flat = record { to_map = λ c. c; from_map = λ c. c }

abbrev shown : AreaMap ℕ
shown = record { area = boxed; box_active = true; quiescent = false; features = [] }

add_feature-Covers_example :
    All (Covers whole-IsOrdered (add_feature flat track shown).area) track
    × ((c : ℕ × ℕ)
        → Covers whole-IsOrdered boxed c
        → Covers whole-IsOrdered (add_feature flat track shown).area c)
    × ((add_feature flat track shown).box_active ≡ false)
add_feature-Covers_example = add_feature-Covers flat whole-IsOrdered track shown refl

-- The start is edited to lie behind the end.
abbrev crossed : Params ℕ
crossed = record fresh { start_date = pos 9000000; end_date = pos 7800000 }

crossed_run : (validate_time_interval whole_dates true crossed).end_date ≡ pos 9600000
unfolding validate_time_interval ◌+ℤ◌
crossed_run = refl
