-- ===== src/Tests/Outcome.antt =====
-- What `execute` leads to, the sizes of files, and the texts that are positions.
use ais_store.Prelude.{
  ltb, zero, if◌then◌else◌, ◌*◌, ℕ, zero, suc, ◌/◌, ◌==◌, ◌↔◌, ◌⊎◌, true, false, none, some, [],
  ◌∷◌, ◌++◌, ◌≡◌, refl, arith, All, inl,
}
use ais_store.Prelude.Int.{ℤ, pos, negsuc, ◌+ℤ◌}
use ais_store.Text.{Text, codes, split, text_eq, IsFree, replace, join, trim}
use ais_store.Uri.{encode_uri_component}
use ais_store.Uri.Decode.{IsCodePoint, decode_uri_component}
use ais_store.Number.Whole.{whole, whole_dates, decimal}
use ais_store.Params.{clear_params}
use ais_store.Area.{area_defined}
use ais_store.Facet.{
  FilterBox, given, update_source_filter, update_target_filter, update_message_filter,
}
use ais_store.Url.{interval, update_download_url, simple_filter}
use ais_store.Url.Segments.{segments}
use ais_store.Url.Parameters.{IsPlain}
use ais_store.Service.{client_id, bool_text, list_files_url, delete_files_url}
use ais_store.Controller.{Page, request, notify, execute}
use ais_store.Controller.Fresh.{query_params, request_url}
use ais_store.Controller.Outcome.{
  execute-delivers, execute_with, execute_unsaved, execute_same_client,
}
use ais_store.FileSize.{Sizes}
use ais_store.FileSize.Units.{power}
use ais_store.Position.{longitude, is_plain, parse}
use ais_store.Position.Accepted.{IsPosition, parse_iff}
use ais_store.Tests.Samples.{fresh, browser, world, page}
use ais_store.Tests.Query.{whole-PrintsNoAmp}
use ais_store.Tests.Degrees.{degrees, fixed_points}

abbrev no_box : FilterBox
no_box = record { text = []; facets = [] }

-- The name in a box holds an `&`.
abbrev name_box : FilterBox
name_box = record { text = codes "name: A&B"; facets = (("name", codes "A&B") ∷ []) ∷ [] }

-- A page with a name and two MMSI numbers, and an id in its storage.
abbrev search : Page ℕ
search = record page {
  params = record fresh { mmsi = some (codes "7, 8") };
  source_filter = no_box;
  target_filter = name_box;
  message_filter = no_box;
  storage = record { params = none; client_id = some (codes "4f"); drawn = 0 };
}

search-IsPlain : IsPlain (query_params search)
unfolding clear_params update_source_filter update_target_filter update_message_filter codes given
search-IsPlain = omega arith

search_id : IsFree b'&' (client_id browser search.storage).0
unfolding client_id codes
search_id = omega arith

search_url :
    update_download_url whole_dates (query_params search)
    ≡ codes "interval=7200000Z/7800000Z&filter=t.name%3DA%2526B&mmsi=7&mmsi=8"
unfolding update_download_url clear_params update_source_filter update_target_filter
    update_message_filter codes text_eq area_defined simple_filter decimal ◌+ℤ◌ given split replace
    join encode_uri_component trim
search_url = refl

search_points : All IsCodePoint (update_download_url whole_dates (query_params search))
unfolding codes
search_points = rw search_url (omega arith)

execute-delivers_example :
    (url value : Text) × ((execute world true search).effects
      ≡ [] ++ request url ∷ notify true ∷ [])
    × (split b'&' url
        ≡ (codes "/downloader/query/execute/"
            ++ ((client_id browser search.storage).0
                ++ (codes "?async=" ++ bool_text browser true)))
          ∷ (codes "params=" ++ value)
          ∷ [])
    × (split b'&' (decode_uri_component value)
        ≡ interval whole_dates (query_params search) ∷ segments whole_dates (query_params search))
execute-delivers_example =
    execute-delivers world search true whole-PrintsNoAmp search-IsPlain search_id search_points

execute_unsaved_example :
    ((execute world true search).effects
      ≡ [] ++ request (execute_with world search true (codes "4f")) ∷ notify true ∷ [])
    × ((execute world true search).storage ≡ search.storage)
unfolding codes
execute_unsaved_example = execute_unsaved world search true (codes "4f") refl (inl refl)

execute_same_client_example :
    (id : Text) × (query : Text) × ((request_url world false page).0
      ≡ codes "/downloader/query/execute/" ++ (id ++ (codes "?async=" ++ query)))
    × ((list_files_url browser (execute world false page).storage).0
        ≡ codes "/downloader/query/list/" ++ id)
    × ((delete_files_url browser (execute world false page).storage).0
        ≡ codes "/downloader/query/delete-all/" ++ id)
execute_same_client_example = execute_same_client world page false

-- Fractions with exact logarithms: `log` keeps its argument, and the floor of a quotient of
-- logarithms is found by a search.
greatest : ℕ → ℕ → ℕ → ℕ
greatest a b zero = 0
greatest a b (suc k) = let rest = greatest a b k in if ltb a (power b (suc k)) then rest else suc k

abbrev fractions : Sizes (ℕ × ℕ)
fractions = record {
  of_nat = λ n. (n, 1);
  of_int = λ i. elim i [ pos k ↦ (k, 1) | negsuc k ↦ (0, 1) ];
  is_zero = λ x. x.0 == 0;
  is_nan = λ x. false;
  is_finite = λ x. true;
  log = λ x. x;
  divide = λ x y. (x.0 * y.1, x.1 * y.0);
  pow = λ x y. (power x.0 y.0, 1);
  floor = λ x. pos (greatest x.0 x.1 x.0);
  to_fixed = λ x precision. decimal (x.0 / x.1);
}

parse_iff_example :
    ((v : ℤ) × (parse fixed_points longitude (codes "12 4.5W") ≡ some v))
    ↔ ((is_plain fixed_points (codes "12 4.5W") ≡ true) ⊎ IsPosition longitude (codes "12 4.5W"))
parse_iff_example = parse_iff fixed_points longitude (codes "12 4.5W")
