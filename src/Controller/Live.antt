-- ===== src/Controller/Live.antt =====
-- The search page of js/app-ctrl.js as it runs: a session in which a digest follows `init` and each
-- event, so that the watches of the page call their handlers.
pub mod InOrder
use ais_store.Prelude.{ℕ, Bool, true, false, not, List, [], ◌∷◌, ◌++◌, foldl, when}
use ais_store.Prelude.Int.{ℤ}
use ais_store.Number.{Number}
use ais_store.Service.{Storage}
use ais_store.Controller.{World, load}
use ais_store.Controller.Digest.{Watched}
use ais_store.Controller.Digest.Passes.{turn, opened_page}
use ais_store.Controller.Session.{Session, Event, validate, change_format, step}

-- A session, with what the watches saw last.
pub record Live (W : Type 0) : Type 0 where
  pub watched : Watched W
  pub filled : Bool
  pub pending : List Bool
  pub thrown : ℕ

module _ {W : Type 0} where
  abbrev pub session_of : Live W → Session W
  session_of l = record {
    page = l.watched.page;
    filled = l.filled;
    pending = l.pending;
    thrown = l.thrown;
  }

module _ {W : Type 0} ⦃n : Number W⦄ (w : World W) where
  -- The page after `init` and the first digest.
  unfoldable pub live_start : ℤ → Storage → Live W
  live_start now storage = record {
    watched = turn w (opened_page (load w now storage)) (λ c. c);
    filled = false;
    pending = [];
    thrown = 0;
  }

  -- An event, and the digest after it; an exception does not stop the digest.
  unfoldable pub live_step : Live W → Event W → Live W
  live_step l e =
      let s = step w (session_of l) e in
      record {
        watched = turn w l.watched (λ _. s.page);
        filled = s.filled;
        pending = s.pending;
        thrown = s.thrown;
      }

  abbrev pub live_run : ℤ → Storage → List (Event W) → Live W
  live_run now storage events = foldl live_step (live_start now storage) events
