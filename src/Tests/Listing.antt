-- ===== src/Tests/Listing.antt =====
-- A session of the results page.
use ais_store.Prelude.{true, List, [], ◌∷◌, ◌≡◌, refl, foldl}
use ais_store.Text.{codes}
use ais_store.Service.{empty_storage}
use ais_store.Results.{
  RepoFile, success, error, show_files, request_files, request_delete, opened_results,
}
use ais_store.Results.Session
use ais_store.Results.Session.{Event, tick, view, delete, delete_all, answer}
use ais_store.Results.Session.Sound.{IsSound, run-IsSound}
use ais_store.Results.Session.Drained.{answer_any, foldl-answer_any}
use ais_store.Results.Session.Stale.{after, timely, late, stale_lem}
use ais_store.Results
use ais_store.Tests.Samples.{browser}

abbrev file : RepoFile
file = record { path = codes "a.csv"; complete = true }

-- The file is deleted while a listing is pending, and the listing that follows the deletion is
-- answered before it.
abbrev events : List Event
events =
    answer 0 (success (file ∷ []))
    ∷ tick
    ∷ view file
    ∷ delete file
    ∷ answer 1 (success [])
    ∷ answer 1 (success [])
    ∷ answer 0 (success (file ∷ []))
    ∷ []

run-IsSound_example : IsSound browser (Session.run browser empty_storage events).results
run-IsSound_example = run-IsSound browser empty_storage events

-- The file that was deleted is listed again.
abbrev listed : Results.Results
listed = opened_results browser empty_storage

stale_lem_example :
    ((after browser (timely file (success []) (file ∷ []) []) listed).results.files ≡ [])
    × ((after browser (late file (success []) (file ∷ []) []) listed).results.files ≡ file ∷ [])
    × ((after browser (timely file (success []) (file ∷ []) []) listed).results.sent
        ≡ (after browser (late file (success []) (file ∷ []) []) listed).results.sent)
    × ((after browser (timely file (success []) (file ∷ []) []) listed).pending ≡ [])
    × ((after browser (late file (success []) (file ∷ []) []) listed).pending ≡ [])
stale_lem_example = stale_lem browser listed file (success []) (file ∷ []) []

-- A listing and a deletion are pending, and need three answers.
abbrev waiting : Session.Session
waiting = Session.run browser empty_storage (delete_all ∷ [])

foldl-answer_any_example :
    (foldl
      (answer_any browser)
      waiting
      ((5, error (codes "down")) ∷ (0, success []) ∷ (1, success []) ∷ [])).pending
    ≡ []
unfolding Session.begin Session.step
foldl-answer_any_example =
    foldl-answer_any browser ((5, error (codes "down")) ∷ (0, success []) ∷ (1, success []) ∷ [])
      waiting refl
