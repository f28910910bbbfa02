-- ===== src/Params.antt =====
-- The search parameters: the object that `clearParams` of js/app-service.js builds, and that the
-- controllers of js/app-ctrl.js update. A field that may be `undefined` is an `Option`.
use ais_store.Prelude.{ℕ, Bool, true, false, not, Option, none, List, [], ◌∷◌}
use ais_store.Prelude.Int.{ℤ, pos}
use ais_store.Text.{Text, codes}
use ais_store.Number.{Moment}

pub record FilterType : Type 0 where
  pub simple : Bool
  pub advanced : Bool

pub record Area (W : Type 0) : Type 0 where
  pub max_lat : Option W
  pub max_lon : Option W
  pub min_lat : Option W
  pub min_lon : Option W

pub record Params (W : Type 0) : Type 0 where
  pub version : ℕ
  pub source_txt : Text
  pub source_type : Text
  pub source_bs : List Text
  pub source_countries : List Text
  pub source_regions : List Text
  pub target_txt : Text
  pub target_countries : List Text
  pub target_imos : List Text
  pub target_names : List Text
  pub target_callsigns : List Text
  pub target_types : List Text
  pub target_navstats : List Text
  pub message_txt : Text
  pub message_countries : List Text
  pub message_mmsi : List Text
  pub message_imos : List Text
  pub message_names : List Text
  pub message_callsigns : List Text
  pub message_types : List Text
  pub message_navstats : List Text
  pub advanced_filter : Text
  pub filter_type : FilterType
  pub mmsi : Option Text
  pub start_date : ℤ
  pub end_date : ℤ
  pub area : Area W
  pub output_format : Text
  pub output_table_fields : List Text
  pub output_table_separator : Text
  pub output_table_header : Bool
  pub limit : Option W
  pub min_distance : Option W
  pub min_duration : Option W
  pub duplicate_window : Option W

abbrev pub no_area : {W : Type 0} → Area W
no_area = record { max_lat = none; max_lon = none; min_lat = none; min_lon = none }

abbrev pub current_version : ℕ
current_version = 1

-- `clearParams`, at the time `now`
unfoldable pub clear_params : {W : Type 0} → Moment → ℤ → Params W
clear_params m now = record {
  version = current_version;
  source_txt = [];
  source_type = [];
  source_bs = [];
  source_countries = [];
  source_regions = [];
  target_txt = [];
  target_countries = [];
  target_imos = [];
  target_names = [];
  target_callsigns = [];
  target_types = [];
  target_navstats = [];
  message_txt = [];
  message_countries = [];
  message_mmsi = [];
  message_imos = [];
  message_names = [];
  message_callsigns = [];
  message_types = [];
  message_navstats = [];
  advanced_filter = [];
  filter_type = record { simple = true; advanced = false };
  mmsi = none;
  start_date = m.start_of_hour now;
  end_date = m.add_minutes (m.start_of_hour now) (pos 10);
  area = no_area;
  output_format = codes "raw";
  output_table_fields = codes "lat" ∷ codes "lon" ∷ codes "time" ∷ codes "mmsi" ∷ [];
  output_table_separator = codes ";";
  output_table_header = true;
  limit = none;
  min_distance = none;
  min_duration = none;
  duplicate_window = none;
}

-- `useAdvancedFilter` of the controller
unfoldable pub use_advanced_filter : {W : Type 0} → Bool → Params W → Params W
use_advanced_filter advanced p = record p {
  filter_type = record { simple = not advanced; advanced = advanced };
}
