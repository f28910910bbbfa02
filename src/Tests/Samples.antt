-- ===== src/Tests/Samples.antt =====
-- Data for the tests: parameters with whole numbers, facets, and a browser.
use ais_store.Prelude.{ℕ, ◌%◌, true, false, none, some, [], ◌∷◌}
use ais_store.Prelude.Int.{pos}
use ais_store.Text.{codes}
use ais_store.Number.Whole.{whole, whole_dates}
use ais_store.Params.{Params, clear_params}
use ais_store.Facet.{FilterBox}
use ais_store.Service.{Browser, empty_storage}
use ais_store.Controller.{Page, World}

-- The fresh parameters at two hours past the epoch.
abbrev pub fresh : Params ℕ
fresh = clear_params whole_dates (pos 7200000)

-- Parameters with a name filter that holds an `&`, two MMSI numbers, a box and a table.
abbrev pub sample : Params ℕ
sample = record fresh {
  source_type = codes "SAT";
  source_countries = codes "DNK" ∷ codes "NOR" ∷ [];
  target_names = codes "A&B" ∷ [];
  mmsi = some (codes "219000001, 219000002");
  area = record { max_lat = some 58; max_lon = some 13; min_lat = some 55; min_lon = some 8 };
  output_format = codes "table";
  output_table_header = false;
  limit = some 100;
}

abbrev pub source_box : FilterBox
source_box = record {
  text = codes "type: SAT country: DNK";
  facets = (("type", codes "SAT") ∷ []) ∷ (("country", codes "DNK") ∷ []) ∷ [];
}

abbrev pub target_box : FilterBox
target_box = record {
  text = codes "imo: 42";
  facets = (("imo", codes "42") ∷ []) ∷ (("flag", codes "x") ∷ []) ∷ [];
}

abbrev pub message_box : FilterBox
message_box = record {
  text = codes "mmsi: 7 mmsi: 8";
  facets = (("mmsi", codes "7") ∷ []) ∷ (("mmsi", codes "8") ∷ []) ∷ [];
}

-- A browser that can write one text for all parameters and reads it back as `p`.
abbrev pub browser : Browser ℕ
browser = record {
  stringify = λ p. none;
  parse = λ text. none;
  accepts = λ text. true;
  random = λ i. i % 16;
}

abbrev pub world : World ℕ
world = record {
  moment = whole_dates;
  browser = browser;
  read = λ text. record { text = text; facets = [] };
}

abbrev pub page : Page ℕ
page = record {
  params = sample;
  source_filter = source_box;
  target_filter = target_box;
  message_filter = message_box;
  download_url = [];
  download_disabled = false;
  timeouts = 0;
  storage = empty_storage;
  effects = [];
}
