-- ===== src/BaseData/Offered.antt =====
-- The `valueMatches` of the three filter boxes of js/app-ctrl.js: the table that a box offers for a
-- category; `none` where it calls nothing back.
use text.Mathlib.Text.{◌==◌ as str_eq}
use ais_store.Prelude.{String, Option, none, some, List, if◌then◌else◌}
use ais_store.BaseData.{ship_types, source_types, navstat_values}
use ais_store.BaseData.Countries.{country_list}

unfoldable pub source_value_matches : String → Option (List (String × String))
source_value_matches facet =
    if str_eq facet "type"
    then some source_types
    else if str_eq facet "country"
    then some country_list
    else none

unfoldable pub target_value_matches : String → Option (List (String × String))
target_value_matches facet =
    if str_eq facet "country"
    then some country_list
    else if str_eq facet "type"
    then some ship_types
    else if str_eq facet "navstat"
    then some navstat_values
    else none

unfoldable pub message_value_matches : String → Option (List (String × String))
message_value_matches facet =
    if str_eq facet "country"
    then some country_list
    else if str_eq facet "type"
    then some ship_types
    else if str_eq facet "navstat"
    then some navstat_values
    else none
