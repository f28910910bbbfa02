-- ===== src/Tests/Page.antt =====
-- The page, and the check of the advanced filter.
use ais_store.Prelude.{
  ℕ, true, false, some, none, List, [], ◌∷◌, ◌++◌, ◌≡◌, refl, inl, foldl, last_or,
}
use ais_store.Prelude.Int.{pos}
use ais_store.Text.{Text, codes}
use ais_store.Number.Whole.{whole, whole_dates}
use ais_store.Params.{Params, clear_params, current_version}
use ais_store.Facet.{given, update_source_filter, update_target_filter, update_message_filter}
use ais_store.Url.{update_download_url}
use ais_store.Service.{Browser, empty_storage, get_search_params, execute_url}
use ais_store.Controller.{World, request, notify, execute}
use ais_store.Controller.Fresh.{query_params, execute_lem}
use ais_store.Validation.{new}
use ais_store.Validation.Settles.{edit, settle, settle-edits, overtaken, overtaken_lem}
use ais_store.Tests.Samples.{browser, world, page}

-- A page of the current version, and a browser that writes and reads its parameters.
abbrev saved : Params ℕ
saved = query_params page

abbrev remembering : Browser ℕ
remembering = record browser { stringify = λ p. some (codes "{}"); parse = λ text. some saved }

abbrev lasting : World ℕ
lasting = record world { browser = remembering }

saved_version : saved.version ≡ current_version
unfolding clear_params update_source_filter update_target_filter update_message_filter given codes
saved_version = refl

execute_lem_example :
    let url = update_download_url whole_dates saved in
    ((execute lasting true page).effects
      ≡ [] ++ request (execute_url remembering url true empty_storage).0 ∷ notify true ∷ [])
    × ((execute lasting true page).params ≡ saved)
    × (get_search_params remembering whole_dates (pos 0) (execute lasting true page).storage
        ≡ saved)
execute_lem_example =
    execute_lem lasting page true (pos 0) (codes "{}") saved_version refl refl refl

abbrev edits : List Text
edits = codes "s.id=" ∷ codes "s.id=1" ∷ []

settle-edits_example :
    (id : ℕ) × ((foldl edit new (codes "s" ∷ edits)).promise ≡ some id)
    × (settle id true (foldl edit new (codes "s" ∷ edits))
        ≡ record (foldl edit new (codes "s" ∷ edits)) {
          promise = none;
          pending = [];
          in_flight = [];
          validity = some (last_or (codes "s") edits, true);
        })
settle-edits_example = settle-edits (codes "s") edits true new (inl refl) refl

overtaken_lem_example :
    let d = overtaken (codes "a") (codes "b") (codes "c") true false true in
    (d.pending ≡ [])
    × (d.in_flight ≡ [])
    × (d.promise ≡ none)
    × (d.validity ≡ some (codes "b", false))
overtaken_lem_example = overtaken_lem (codes "a") (codes "b") (codes "c") true false true
