-- ===== src/Results/Session.antt =====
-- A session of the results page: the timer of five seconds and the user send requests, and the
-- backend answers them in any order.
pub mod Sound
pub mod Drained
pub mod Stale
use ais_store.Prelude.{ℕ, Option, none, some, List, [], ◌∷◌, ◌++◌, get_elem?, remove_at, foldl}
use ais_store.Service.{Storage, Browser}
use ais_store.Results.{
  RepoFile, Results, Answer, show_files, request_files, open_file, request_delete,
  request_delete_all, opened_results,
}

-- A request that is not answered: of `updateFiles`, or of `deleteFile` or `deleteFiles`, whose
-- callbacks are the same.
pub data Pending : Type 0 where
  listing deletion : Pending

pub record Session : Type 0 where
  pub results : Results
  pub pending : List Pending

pub data Event : Type 0 where
  tick : Event
  view : RepoFile → Event
  delete : RepoFile → Event
  delete_all : Event
  -- The k-th pending request is answered. The callbacks of a deletion do not read its answer.
  answer : ℕ → Answer (List RepoFile) → Event

module _ {W : Type 0} (b : Browser W) where
  -- `updateFiles`
  list_files : Session → Session
  list_files s = record s {
    results = request_files b s.results;
    pending = s.pending ++ listing ∷ [];
  }

  -- The callbacks.
  answered : ℕ → Answer (List RepoFile) → Option Pending → Session → Session
  unfolding list_files
  answered k reply none s = s
  answered k reply (some listing) s = record s {
    results = show_files reply s.results;
    pending = remove_at k s.pending;
  }
  answered k reply (some deletion) s = list_files (record s { pending = remove_at k s.pending })

  unfoldable pub step : Session → Event → Session
  unfolding list_files answered
  step s tick = list_files s
  step s (view file) = record s { results = open_file b file s.results }
  step s (delete file) = record s {
    results = request_delete b file s.results;
    pending = s.pending ++ deletion ∷ [];
  }
  step s delete_all = record s {
    results = request_delete_all b s.results;
    pending = s.pending ++ deletion ∷ [];
  }
  step s (answer k reply) = answered k reply (get_elem? s.pending k) s

  -- The controller's start, and the session after the events.
  unfoldable pub begin : Storage → Session
  unfolding list_files
  begin storage = list_files (record { results = opened_results b storage; pending = [] })

  abbrev pub run : Storage → List Event → Session
  run storage events = foldl step (begin storage) events
