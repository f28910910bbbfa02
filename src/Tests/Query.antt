-- ===== src/Tests/Query.antt =====
-- The query.
use ais_store.Prelude.{inl, inr, some, ℕ, [], ◌∷◌, ◌++◌, ◌≡◌, refl, ◌↔◌, drop, arith}
use ais_store.Prelude.Int.{pos_part, ◌+ℤ◌}
use ais_store.Text.{codes, join, split, replace, trim, text_eq}
use ais_store.Uri.{encode_uri_component}
use ais_store.Number.Whole.{whole, whole_dates, decimal, decimal-IsFree, to_fixed-IsFree}
use ais_store.Params.{Params, no_area, clear_params}
use ais_store.Area.{truthy, area_defined}
use ais_store.Url.{interval, simple_filter, update_download_url, clause, encoded_clause}
use ais_store.Url.Clauses.{and, clauses, simple_filter_lem}
use ais_store.Url.Segments.{amp, segments}
use ais_store.Url.Query.{update_download_url_lem}
use ais_store.Url.Parameters.{PrintsNoAmp, IsPlain, split-update_download_url}
use ais_store.BaseData.Countries.{country_list}
use ais_store.BaseData.Offered.{source_value_matches}
use ais_store.BaseData.Codes.{clause-eq-encoded_clause}
use ais_store.Url.Undefined.{IsPartial, update_download_url-IsPartial}
use ais_store.Tests.Samples.{sample}

-- The names in the filter are encoded twice: first each by itself, then the whole filter.
sample_url :
    update_download_url whole_dates sample
    ≡ codes "interval=7200000Z/7800000Z"
      ++ (codes "&filter=s.type%3DSAT%20%26%20s.country%3DDNK%2CNOR%20%26%20t.name%3DA%2526B"
          ++ (codes "&mmsi=219000001&mmsi=219000002&box=58.000,8.000,55.000,13.000"
              ++ codes "&output=table&columns=lat;lon;time;mmsi&separator=;&noHeader&limit=100"))
unfolding update_download_url clear_params codes truthy text_eq area_defined split replace
    simple_filter join encode_uri_component decimal ◌+ℤ◌ trim
sample_url = refl

update_download_url_lem_example :
    update_download_url whole_dates sample
    ≡ join amp (interval whole_dates sample ∷ segments whole_dates sample)
update_download_url_lem_example = update_download_url_lem whole_dates sample

pub whole-PrintsNoAmp : PrintsNoAmp ℕ whole_dates
whole-PrintsNoAmp = record {
  format_utc = λ date. decimal-IsFree (pos_part date);
  to_fixed = to_fixed-IsFree;
  to_text = decimal-IsFree;
}

sample-IsPlain : IsPlain sample
unfolding clear_params codes
sample-IsPlain = omega arith

split-update_download_url_example :
    split b'&' (update_download_url whole_dates sample)
    ≡ interval whole_dates sample ∷ segments whole_dates sample
split-update_download_url_example =
    split-update_download_url whole_dates whole-PrintsNoAmp sample sample-IsPlain

simple_filter_lem_example :
    (drop 3 (simple_filter sample) ≡ join and (clauses sample))
    × ((simple_filter sample ≡ []) ↔ (clauses sample ≡ []))
simple_filter_lem_example = simple_filter_lem sample

clause-eq-encoded_clause_example :
    clause " & s.country=" (codes "DNK" ∷ codes "NOR" ∷ []) []
    ≡ encoded_clause " & s.country=" (codes "DNK" ∷ codes "NOR" ∷ []) []
unfolding codes text_eq source_value_matches
clause-eq-encoded_clause_example =
    clause-eq-encoded_clause "country" country_list (inl refl) " & s.country="
      (codes "DNK" ∷ codes "NOR" ∷ []) [] (refl, (refl, tt))

-- An area at the equator.
abbrev at_equator : Params ℕ
at_equator = record sample { area = record sample.area { min_lat = some 0 } }

at_equator-IsPartial : IsPartial at_equator.area
at_equator-IsPartial = inr (inr (inl (inr (0, refl, refl))))

update_download_url-IsPartial_example :
    update_download_url whole_dates at_equator
    ≡ update_download_url whole_dates (record at_equator { area = no_area })
update_download_url-IsPartial_example =
    update_download_url-IsPartial whole_dates at_equator at_equator-IsPartial
