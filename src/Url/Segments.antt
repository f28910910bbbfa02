-- ===== src/Url/Segments.antt =====
-- The query described as a list of segments, which the URL has between `&`s.
use ais_store.Prelude.{
  String, not, Option, none, some, List, [], ◌∷◌, ◌++◌, ◌&&◌, map, if◌then◌else◌, when,
}
use ais_store.Text.{Text, codes, join, text_eq, non_empty, split, replace, trim}
use ais_store.Uri.{encode_uri_component}
use ais_store.Number.{Number, Moment}
use ais_store.Params.{Params, Area}
use ais_store.Area.{truthy, area_defined}
use ais_store.Url.{comma}
use ais_store.Url.Clauses.{and, clauses}

abbrev pub amp : Text
amp = codes "&"

-- The parts of the MMSI field between commas and spaces that are not empty.
abbrev pub non_empties : List Text → List Text
non_empties [] = []
non_empties (t ∷ ts) = when (non_empty t) (t ∷ []) ++ non_empties ts

unfoldable pub mmsi_tokens : Text → List Text
mmsi_tokens mmsi = non_empties (split b' ' (replace b',' b' ' mmsi))

abbrev pub mmsi_segment : Text → Text
mmsi_segment token = codes "mmsi=" ++ trim token

unfoldable pub mmsi_segments : Option Text → List Text
mmsi_segments none = []
mmsi_segments (some mmsi) = map mmsi_segment (mmsi_tokens mmsi)

abbrev pub filter_segment : Text → Text
filter_segment filter = codes "filter=" ++ encode_uri_component filter

unfoldable pub simple_segments : List Text → List Text
simple_segments [] = []
simple_segments (c ∷ cs) = filter_segment (join and (c ∷ cs)) ∷ []

module _ {W : Type 0} where
  unfoldable pub filter_segments : Params W → List Text
  filter_segments p =
      if p.filter_type.simple
      then simple_segments (clauses p)
      else when (p.filter_type.advanced && non_empty p.advanced_filter)
          (filter_segment p.advanced_filter ∷ [])

  unfoldable pub output_segments : Params W → List Text
  output_segments p =
      when (not (text_eq p.output_format (codes "raw"))) ((codes "output=" ++ p.output_format) ∷ [])

  unfoldable pub table_segments : Params W → List Text
  table_segments p =
      if text_eq p.output_format (codes "table")
      then (codes "columns=" ++ join (codes ";") p.output_table_fields)
        ∷ (codes "separator=" ++ p.output_table_separator)
        ∷ when (not p.output_table_header) (codes "noHeader" ∷ [])
      else []

module _ {W : Type 0} ⦃n : Number W⦄ where
  -- The numbers of a box in the order of the URL, with three digits each.
  abbrev pub corners : W × W × W × W → List Text
  corners (max_lat, min_lon, min_lat, max_lon) =
      n.to_fixed 3 max_lat ∷ n.to_fixed 3 min_lon ∷ n.to_fixed 3 min_lat ∷ n.to_fixed 3 max_lon ∷ []

  unfoldable pub box_segments : Area W → List Text
  box_segments a = elim (area_defined a) [
    | none ↦ []
    | some box ↦ (codes "box=" ++ join comma (corners box)) ∷ []
  ]

  unfoldable pub number_segments : String → Option W → String → List Text
  number_segments name value unit = elim (truthy value) [
    | none ↦ []
    | some x ↦ (codes name ++ (n.to_text x ++ codes unit)) ∷ []
  ]

  -- The segments of the query, in order.
  unfoldable pub segments : Moment → Params W → List Text
  segments m p =
      []
      ++ filter_segments p
      ++ mmsi_segments p.mmsi
      ++ box_segments p.area
      ++ output_segments p
      ++ table_segments p
      ++ number_segments "limit=" p.limit ""
      ++ number_segments "minDistance=" p.min_distance ""
      ++ number_segments "minDuration=P0Y0M0DT0H0M" p.min_duration "S"
      ++ number_segments "duplicateWindow=" p.duplicate_window ""
