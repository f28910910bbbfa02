-- ===== src/Results/Session/Stale.antt =====
-- What the results page shows where the backend answers a listing late.
use ais_store.Prelude.{List, [], ◌∷◌, ◌≡◌, refl, foldl}
use ais_store.Service.{Browser}
use ais_store.Results.{RepoFile, Results, Answer, success, show_files}
use ais_store.Results.Session.{Session, Event, tick, delete, answer, list_files, answered, step}

-- The timer asks for a listing, a file is deleted, and the deletion is answered, by which a second
-- listing is asked for. The listings are then answered in one order or the other.
module _ (file : RepoFile) (deleted : Answer (List RepoFile)) (old new : List RepoFile) where
  abbrev asked : List Event → List Event
  asked answers = tick ∷ delete file ∷ answer 1 deleted ∷ answers

  abbrev pub timely : List Event
  timely = asked (answer 0 (success old) ∷ answer 0 (success new) ∷ [])

  abbrev pub late : List Event
  late = asked (answer 1 (success new) ∷ answer 0 (success old) ∷ [])

module _ {W : Type 0} (b : Browser W) where
  -- The page after the events, where nothing is pending before them.
  abbrev pub after : List Event → Results → Session
  after events r = foldl (step b) (record { results = r; pending = [] }) events

  -- While no request is pending, a listing is asked for, a file is deleted, and a listing is asked
  -- for again when the deletion is answered. Where the listings are answered in the order in which
  -- they were asked for, the page shows the second; where the second is answered first, it shows the
  -- first, from before the deletion. The requests are the same, and none is pending in the end.
  pub stale_lem :
      (r : Results) (file : RepoFile) (deleted : Answer (List RepoFile)) (old new : List RepoFile)
      → ((after (timely file deleted old new) r).results.files ≡ new)
        × ((after (late file deleted old new) r).results.files ≡ old)
        × ((after (timely file deleted old new) r).results.sent
            ≡ (after (late file deleted old new) r).results.sent)
        × ((after (timely file deleted old new) r).pending ≡ [])
        × ((after (late file deleted old new) r).pending ≡ [])
  unfolding step list_files answered show_files
  stale_lem r file deleted old new = (refl, refl, refl, refl, refl)
