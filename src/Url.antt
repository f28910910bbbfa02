-- ===== src/Url.antt =====
-- The query of js/app-ctrl.js: `encodeValues` and `updateDownloadUrl`. Each function `add_…` is a
-- part of `updateDownloadUrl`, from the text that the URL has before it to the one after it.
pub mod Clauses
pub mod Segments
pub mod Query
pub mod Parameters
pub mod Undefined
use ais_store.Prelude.{
  ℕ, String, Bool, true, false, Option, none, some, List, [], ◌∷◌, ◌++◌, ◌||◌, ◌&&◌, not,
  if◌then◌else◌, ◌▷◌, map, foldl, ltb, length, drop,
}
use ais_store.Text.{Text, codes, join, non_empty, replace, split, trim, text_eq}
use ais_store.Uri.{encode_uri_component}
use ais_store.Number.{Number, Moment}
use ais_store.Params.{Params, Area}
use ais_store.Area.{truthy, area_defined}

unfoldable pub encode_values : List Text → List Text
encode_values = map encode_uri_component

abbrev pub comma : Text
comma = codes ","

-- One clause of the simple filter, which stands only where there are values.
unfoldable pub clause : String → List Text → Text → Text
clause key values filter =
    if ltb 0 (length values) then filter ++ (codes key ++ join comma values) else filter

-- The same with each value encoded.
unfoldable pub encoded_clause : String → List Text → Text → Text
unfolding encode_values
encoded_clause key values filter =
    if ltb 0 (length values)
    then filter ++ (codes key ++ join comma (encode_values values))
    else filter

source_type_clause : Text → Text → Text
source_type_clause type filter =
    if text_eq type (codes "SAT") || text_eq type (codes "LIVE")
    then filter ++ (codes " & s.type=" ++ type)
    else filter

module _ {W : Type 0} where
  -- The variable `filter`, when all clauses have been added.
  unfoldable pub simple_filter : Params W → Text
  unfolding clause encoded_clause source_type_clause
  simple_filter p =
      []
      ▷ source_type_clause p.source_type
      ▷ encoded_clause " & s.bs=" p.source_bs
      ▷ clause " & s.country=" p.source_countries
      ▷ encoded_clause " & s.region=" p.source_regions
      ▷ clause " & t.country=" p.target_countries
      ▷ encoded_clause " & t.imo=" p.target_imos
      ▷ encoded_clause " & t.name=" p.target_names
      ▷ encoded_clause " & t.cs=" p.target_callsigns
      ▷ clause " & t.type=" p.target_types
      ▷ encoded_clause " & t.navstat=" p.target_navstats
      ▷ clause " & m.country=" p.message_countries
      ▷ encoded_clause " & m.mmsi=" p.message_mmsi
      ▷ encoded_clause " & m.imo=" p.message_imos
      ▷ encoded_clause " & m.name=" p.message_names
      ▷ encoded_clause " & m.cs=" p.message_callsigns
      ▷ clause " & m.type=" p.message_types
      ▷ encoded_clause " & m.navstat=" p.message_navstats

add_simple_filter : Text → Text → Text
add_simple_filter filter url =
    if ltb 0 (length filter)
    then url ++ (codes "&filter=" ++ encode_uri_component (drop 3 filter))
    else url

-- One round of the loop over the parts of the MMSI field.
add_token : Text → Text → Text
add_token url token = if non_empty token then url ++ (codes "&mmsi=" ++ trim token) else url

add_mmsi : Option Text → Text → Text
unfolding add_token
add_mmsi none url = url
add_mmsi (some mmsi) url =
    if non_empty mmsi then foldl add_token url (split b' ' (replace b',' b' ' mmsi)) else url

module _ {W : Type 0} where
  -- The filter of the tab that is shown.
  add_filter : Params W → Text → Text
  unfolding add_simple_filter
  add_filter p url =
      if p.filter_type.simple
      then add_simple_filter (simple_filter p) url
      else if p.filter_type.advanced && non_empty p.advanced_filter
      then url ++ (codes "&filter=" ++ encode_uri_component p.advanced_filter)
      else url

  add_output : Params W → Text → Text
  add_output p url =
      if not (text_eq p.output_format (codes "raw"))
      then url ++ (codes "&output=" ++ p.output_format)
      else url

  add_header : Params W → Text → Text
  add_header p url = if not p.output_table_header then url ++ codes "&noHeader" else url

  add_table : Params W → Text → Text
  unfolding add_header
  add_table p url =
      if text_eq p.output_format (codes "table")
      then url ++ (codes "&columns=" ++ join (codes ";") p.output_table_fields)
        ▷ (λ u. u ++ (codes "&separator=" ++ p.output_table_separator))
        ▷ add_header p
      else url

  -- The interval, which the URL begins with.
  pub interval : Moment → Params W → Text
  interval m p =
      codes "interval="
      ++ (m.format_utc p.start_date ++ (codes "Z/" ++ (m.format_utc p.end_date ++ codes "Z")))

module _ {W : Type 0} ⦃n : Number W⦄ where
  add_box : Area W → Text → Text
  add_box a url = elim (area_defined a) [
    | none ↦ url
    | some (max_lat, min_lon, min_lat, max_lon) ↦
        url
        ++ (codes "&box="
            ++ (n.to_fixed 3 max_lat
                ++ (comma
                    ++ (n.to_fixed 3 min_lon
                        ++ (comma ++ (n.to_fixed 3 min_lat ++ (comma ++ n.to_fixed 3 max_lon)))))))
  ]

  -- A number that the URL has only where it is truthy, between two texts.
  add_number : String → Option W → String → Text → Text
  add_number key value unit url = elim (truthy value) [
    | none ↦ url
    | some x ↦ url ++ (codes key ++ (n.to_text x ++ codes unit))
  ]

  -- `updateDownloadUrl`: the text that it puts into `downloadUrl`
  unfoldable pub update_download_url : Moment → Params W → Text
  unfolding interval add_filter add_mmsi add_box add_output add_table add_number
  update_download_url m p =
      interval m p
      ▷ add_filter p
      ▷ add_mmsi p.mmsi
      ▷ add_box p.area
      ▷ add_output p
      ▷ add_table p
      ▷ add_number "&limit=" p.limit ""
      ▷ add_number "&minDistance=" p.min_distance ""
      ▷ add_number "&minDuration=P0Y0M0DT0H0M" p.min_duration "S"
      ▷ add_number "&duplicateWindow=" p.duplicate_window ""
