-- ===== src/BaseData.antt =====
-- The tables of js/base-data.js: labels with the values that the filter boxes and the output
-- format offer for them.
pub mod Countries
pub mod Offered
pub mod Codes
use ais_store.Prelude.{String, List, [], ◌∷◌}

abbrev pub ship_types : List (String × String)
ship_types =
    ("Undefined", "UNDEFINED")
    ∷ ("Wig", "WIG")
    ∷ ("Pilot", "PILOT")
    ∷ ("Sar", "SAR")
    ∷ ("Tug", "TUG")
    ∷ ("Port Tender", "PORT_TENDER")
    ∷ ("Anti Pollution", "ANTI_POLLUTION")
    ∷ ("Law Enforcement", "LAW_ENFORCEMENT")
    ∷ ("Medical", "MEDICAL")
    ∷ ("Fishing", "FISHING")
    ∷ ("Towing", "TOWING")
    ∷ ("Towing Long Wide", "TOWING_LONG_WIDE")
    ∷ ("Dredging", "DREDGING")
    ∷ ("Diving", "DIVING")
    ∷ ("Military", "MILITARY")
    ∷ ("Sailing", "SAILING")
    ∷ ("Pleasure", "PLEASURE")
    ∷ ("Hsc", "HSC")
    ∷ ("Passenger", "PASSENGER")
    ∷ ("Cargo", "CARGO")
    ∷ ("Tanker", "TANKER")
    ∷ ("Ships According to RR", "SHIPS_ACCORDING_TO_RR")
    ∷ ("Unknown", "UNKNOWN")
    ∷ []

abbrev pub source_types : List (String × String)
source_types = ("Any", "any") ∷ ("Live", "LIVE") ∷ ("Sat", "SAT") ∷ []

abbrev pub navstat_values : List (String × String)
navstat_values =
    ("Under way using engine", "UNDER_WAY_USING_ENGINE")
    ∷ ("At anchor", "AT_ANCHOR")
    ∷ ("Not under command", "NOT_UNDER_COMMAND")
    ∷ ("Restricted manoeuvrability", "RESTRICTED_MANOEUVRABILITY")
    ∷ ("Constrained by draught", "CONSTRAINED_BY_HER_DRAUGHT")
    ∷ ("Moored", "MOORED")
    ∷ ("Aground", "AGROUND")
    ∷ ("Engaged in fishing", "ENGAGED_IN_FISHING")
    ∷ ("Under way", "UNDER_WAY")
    ∷ ("Undefined", "UNDEFINED")
    ∷ ("AIS-SART", "AIS_SART")
    ∷ []

abbrev pub output_table_fields : List (String × String)
output_table_fields =
    ("Longitude", "lon")
    ∷ ("Latitude", "lat")
    ∷ ("MMSI", "mmsi")
    ∷ ("Time", "time")
    ∷ ("Timestamp", "timestamp")
    ∷ []
