-- ===== src/Tests/Position.antt =====
-- Positions.
use ais_store.Prelude.{◌-◌, true, some, none, [], ◌∷◌, ◌≡◌, refl, foldl}
use ais_store.Prelude.Int.{ℤ, negsuc, ◌+ℤ◌}
use ais_store.Text.{Text, codes, split, trim, is_space, text_eq}
use ais_store.Number.Whole.{decimal}
use ais_store.Position.{
  longitude, index_of, pad, absolute, hours_text, minutes_text, format, parse, split_formatted_pos,
  parse_parts,
}
use ais_store.Position.Padding.{zeros, pad_lem, pad_forever}
use ais_store.Position.Reading.{value_of}
use ais_store.Position.RoundTrip.{longitude-IsDirected, signed, parse-format}
use ais_store.Position.Field.{Field, formatter, edited, changed, is_some, changed-edits}
use ais_store.Position.Distance.{nm2km, km2nm}
use ais_store.Tests.Degrees.{degrees, fixed_points, degrees-PrintsSolid}

-- 12 degrees and 4.5 minutes to the west.
abbrev west : ℤ
west = negsuc 724499

west_run :
    (format fixed_points 3 longitude west ≡ some (codes "012 04.500W"))
    × (parse fixed_points longitude (codes "012 04.500w ") ≡ none)
    × (parse fixed_points longitude (codes "012 04.500w") ≡ some west)
unfolding format pad codes decimal parse split_formatted_pos parse_parts split trim is_space text_eq
    ◌+ℤ◌
west_run = (refl, refl, refl)

west_minutes : index_of b'.' (minutes_text fixed_points (absolute fixed_points west)) ≡ some 1
unfolding index_of decimal ◌+ℤ◌
west_minutes = refl

parse-format_example :
    (text : Text) × (format fixed_points 3 longitude west ≡ some text)
    × (parse fixed_points longitude text
        ≡ some (
            signed fixed_points true (
              value_of fixed_points
                (hours_text fixed_points longitude (absolute fixed_points west))
                (zeros (2 - 1) (minutes_text fixed_points (absolute fixed_points west))))))
parse-format_example =
    parse-format fixed_points degrees-PrintsSolid longitude longitude-IsDirected 0 1 west
      west_minutes

one_place : index_of b'.' (codes "4.500") ≡ some 1
unfolding index_of codes
one_place = refl

pad_lem_example : pad 3 (codes "4.500") ≡ some (zeros (2 - 1) (codes "4.500"))
pad_lem_example = pad_lem 0 1 (codes "4.500") one_place

no_place : index_of b'.' (codes "NaN") ≡ none
unfolding index_of codes
no_place = refl

pad_forever_example : pad 1000 (codes "NaN") ≡ none
pad_forever_example = pad_forever 1000 (codes "NaN") no_place

distance_run : km2nm (nm2km (some 7)) ≡ some 7
unfolding nm2km km2nm
distance_run = refl

abbrev field : Field ℤ
field = record { model_value = some west; view_value = none; valid = true }

abbrev shown : ℤ → Text
shown x = elim (format fixed_points 3 longitude x) [ none ↦ [] | some s ↦ s ]

changed-edits_example :
    changed fixed_points shown (parse fixed_points longitude) (
      foldl
        (edited fixed_points shown (parse fixed_points longitude))
        field
        (codes "1" ∷ codes "12 30E" ∷ []))
    ≡ record {
      model_value = parse fixed_points longitude (codes "12 30E");
      view_value =
          formatter fixed_points shown
            (parse fixed_points longitude)
            (parse fixed_points longitude (codes "12 30E"));
      valid =
          is_some fixed_points shown
            (parse fixed_points longitude)
            (parse fixed_points longitude (codes "12 30E"));
    }
changed-edits_example =
    changed-edits fixed_points shown (parse fixed_points longitude) field (codes "1")
      (codes "12 30E" ∷ [])
