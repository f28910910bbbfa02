-- ===== src/Tests/Backend.antt =====
-- The storage and the requests.
use ais_store.Prelude.{ℕ, ◌<◌, ◌%◌, some, ◌≡◌, refl, arith}
use ais_store.Prelude.Int.{pos}
use ais_store.Text.{codes}
use ais_store.Number.Whole.{whole, whole_dates}
use ais_store.Params.{current_version, clear_params}
use ais_store.Service.{Storage, Browser, empty_storage, get_search_params, client_id}
use ais_store.Service.ClientId.{Matches, uuid_form, client_id-Matches}
use ais_store.Tests.Samples.{sample, browser}

-- What is stored is of an older version.
abbrev old : Browser ℕ
old = record browser { parse = λ text. some (record sample { version = 0 }) }

abbrev outdated : Storage
outdated = record empty_storage { params = some (codes "{}") }

outdated_run : (get_search_params old whole_dates (pos 0) outdated).version ≡ current_version
unfolding get_search_params clear_params
outdated_run = refl

-- The draws are the remainders by 16.
draws : (i : ℕ) → i % 16 < 16
draws i = omega arith

client_id_run : (client_id browser empty_storage).0 ≡ codes "01234567-89ab-4cde-b012-3456789abcde"
unfolding client_id codes
client_id_run = refl

client_id-Matches_example : Matches uuid_form (client_id browser empty_storage).0
client_id-Matches_example = client_id-Matches browser draws empty_storage refl
