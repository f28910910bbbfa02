-- ===== src/Controller/Live/InOrder.antt =====
-- The intervals of the queries that leave the search page as it runs.
use ais_store.Prelude.{◌∙◌, Bool, true, false, List, [], ◌∷◌, ◌≡◌, refl, foldl, All, if◌then◌else◌}
use ais_store.Prelude.Int.{ℤ}
use ais_store.Number.{Number}
use ais_store.Service.{Storage}
use ais_store.Interval.Ordered.{IsExact}
use ais_store.Controller.{World, load, validate_interval, update_url}
use ais_store.Controller.Digest.{
  Watched, start_seen, end_seen, format_seen, start_changed, end_changed, format_changed,
  start_watch, end_watch, format_watch, pass,
}
use ais_store.Controller.Digest.Passes.{IsSettled, opened_page, pass_twice, turn-IsSettled}
use ais_store.Controller.Session.{Event, step}
use ais_store.Controller.Session.InOrder.{InOrder, step-InOrder}
use ais_store.Controller.Live.{Live, session_of, live_start, live_step, live_run}

module _ {W : Type 0} where
  -- A watch calls its handler or not.
  either-effects :
      (b : Bool) (s t : Watched W)
      → t.page.effects ≡ s.page.effects
      → (if b then s else t).page.effects ≡ s.page.effects
  either-effects true s t e = refl
  either-effects false s t e = e

module _ {W : Type 0} ⦃n : Number W⦄ (w : World W) where
  -- The handlers of the watches send and show nothing.
  pass-effects : (s : Watched W) → (pass w s).page.effects ≡ s.page.effects
  unfolding pass start_watch end_watch format_watch start_changed end_changed format_changed
      validate_interval update_url
  pass-effects s =
      let t = start_watch w s in
      let u = end_watch w t in
      either-effects (format_seen u) u (format_changed w u) refl
      ∙ either-effects (end_seen t) t (end_changed w t) refl
      ∙ either-effects (start_seen s) s (start_changed w s) refl

  pass_twice-effects : (s : Watched W) → (pass w (pass w s)).page.effects ≡ s.page.effects
  pass_twice-effects s = pass-effects (pass w s) ∙ pass-effects s

  live_start-effects :
      (now : ℤ) (storage : Storage) → (live_start w now storage).watched.page.effects ≡ []
  unfolding live_start load
  live_start-effects now storage = pass_twice-effects (opened_page (load w now storage))

module _ {W : Type 0} ⦃n : Number W⦄ (w : World W) (exact : IsExact w.moment) where
  live_start-IsSettled :
      (now : ℤ) (storage : Storage) → IsSettled (live_start w now storage).watched
  unfolding live_start
  live_start-IsSettled now storage = pass_twice w exact (opened_page (load w now storage)) (λ h. cc)

  live_step-IsSettled :
      (l : Live W) (e : Event W) → IsSettled l.watched → IsSettled (live_step w l e).watched
  unfolding live_step
  live_step-IsSettled l e = turn-IsSettled w exact l.watched (λ _. (step w (session_of l) e).page)

  live_step-InOrder :
      (l : Live W) (e : Event W)
      → IsSettled l.watched
      → All (InOrder w) l.watched.page.effects
      → All (InOrder w) (live_step w l e).watched.page.effects
  unfolding live_step
  live_step-InOrder l e (quiet, ordered) h =
      rw (pass_twice-effects w (record l.watched { page = (step w (session_of l) e).page }))
        (step-InOrder w (session_of l) e ordered h)

  foldl-live_step-InOrder :
      (l : Live W) (events : List (Event W))
      → IsSettled l.watched
      → All (InOrder w) l.watched.page.effects
      → All (InOrder w) (foldl (live_step w) l events).watched.page.effects
  foldl-live_step-InOrder l [] settled h = h
  foldl-live_step-InOrder l (e ∷ es) settled h =
      foldl-live_step-InOrder (live_step w l e) es (live_step-IsSettled l e settled)
        (live_step-InOrder l e settled h)

  -- Where the moment library adds minutes exactly, in any session in which a digest follows `init`
  -- and every event, each query that leaves the page, whether it is sent to the backend, opened in
  -- AisView or shown to be copied, is the query of parameters whose start is not behind their end.
  -- Every other window that is opened shows a file of the backend.
  pub live_run-InOrder :
      (now : ℤ) (storage : Storage) (events : List (Event W))
      → All (InOrder w) (live_run w now storage events).watched.page.effects
  live_run-InOrder now storage events =
      foldl-live_step-InOrder (live_start w now storage) events (live_start-IsSettled now storage)
        (rw (live_start-effects w now storage) tt)
