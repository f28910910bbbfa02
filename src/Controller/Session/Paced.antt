-- ===== src/Controller/Session/Paced.antt =====
-- The buttons of query.html that carry `ng-disabled="downloadDisabled"`: how `execute` and its timeout
-- of two seconds pace the queries of a session.
use ais_store.Prelude.{
  ℕ, zero, suc, ◌+◌, ◌++◌, ◌≤◌, Bool, true, false, Option, none, some, List, [], ◌∷◌, ◌≡◌, refl,
  arith, foldl, if◌then◌else◌, get_elem?, total, total-append,
}
use ais_store.Prelude.Int.{ℤ}
use ais_store.Text.{Text}
use ais_store.Number.{Number}
use ais_store.Service.{Storage}
use ais_store.Controller.{
  Page, World, Effect, request, notify, open_window, prompt, reload, fill_boxes, load,
  update_source, update_target, update_message, validate_interval, update_url,
  recompute_download_url, send, execute, execute_success, open_in_ais_store, copy, clear, reset,
  fire, timeout,
}
use ais_store.Controller.Fresh.{execute-effects}
use ais_store.Controller.Session.{
  Session, Event, fill, write_source, write_target, write_message, search_source, search_target,
  search_message, edit, validate, change_format, press, press_view, press_copy, press_reset,
  press_clear, time_passes, answer, ask, clear_session, answered, step, start, run,
}

abbrev pub is_request : Effect → ℕ
is_request (request url) = 1
is_request _ = 0

-- The timeouts that have passed, with one more event.
abbrev pub passes : {W : Type 0} → ℕ → Event W → ℕ
passes k time_passes = suc k
passes k _ = k

-- The timeouts that are pending, and the queries that may be sent before the next one passes.
abbrev pub waiting : Bool → ℕ
waiting true = 1
waiting false = 0

abbrev pub ready : Bool → ℕ
ready true = 0
ready false = 1

module _ {W : Type 0} where
  -- The buttons are disabled exactly while one timeout is pending, and no second one is; and the
  -- queries that were sent and the one that may be sent are at most `k`.
  pub record IsPaced (s : Session W) (k : ℕ) : Type 0 where
    pub timed : s.page.timeouts ≡ waiting s.page.download_disabled
    pub bounded : total is_request s.page.effects + ready s.page.download_disabled ≤ k

  -- A test whose outcome is known in its branches.
  if_cases {ℓ} :
      (P : Session W → Type ℓ) (b : Bool) {s t : Session W}
      → (b ≡ true → P s)
      → (b ≡ false → P t)
      → P (if b then s else t)
  if_cases P true h k = h refl
  if_cases P false h k = k refl

  if_filled :
      (s t u : Session W) (k : ℕ)
      → IsPaced t k
      → IsPaced u k
      → IsPaced (if s.filled then t else u) k
  if_filled s t u k h h' = if_cases (λ x. IsPaced x k) s.filled (λ _. h) (λ _. h')

  -- What leaves the buttons, the timeouts and the effects alone.
  same_pace :
      (s t : Session W) (k : ℕ)
      → t.page.timeouts ≡ s.page.timeouts
      → t.page.download_disabled ≡ s.page.download_disabled
      → t.page.effects ≡ s.page.effects
      → IsPaced s k
      → IsPaced t k
  same_pace s t k a b e h = record { timed = rw (a, b) h.timed; bounded = rw (b, e) h.bounded }

  -- One more effect that is no request.
  one_effect :
      (s t : Session W) (effect : Effect) (k : ℕ)
      → t.page.timeouts ≡ s.page.timeouts
      → t.page.download_disabled ≡ s.page.download_disabled
      → t.page.effects ≡ s.page.effects ++ effect ∷ []
      → is_request effect ≡ 0
      → IsPaced s k
      → IsPaced t k
  one_effect s t effect k a b e none_more h = record {
    timed = rw (a, b) h.timed;
    bounded =
        rw (b, e)
          (omega
            (arith, h.bounded, none_more, total-append is_request s.page.effects (effect ∷ [])));
  }

module _ {W : Type 0} ⦃n : Number W⦄ (w : World W) where
  execute-timeouts :
      (async : Bool) (c : Page W)
      → ((execute w async c).timeouts ≡ suc c.timeouts)
        × ((execute w async c).download_disabled ≡ true)
  unfolding execute recompute_download_url update_source update_target update_message update_url
      send
  execute-timeouts async c = (refl, refl)

  -- A query is sent where the buttons are enabled.
  execute-IsPaced :
      (async : Bool) (s t : Session W) (k : ℕ)
      → t.page ≡ execute w async s.page
      → s.page.download_disabled ≡ false
      → IsPaced s k
      → IsPaced t k
  execute-IsPaced async s t k e enabled h =
      let (more, disabled) = execute-timeouts async s.page in
      let timed : s.page.timeouts ≡ waiting false = rw enabled at (h.timed) in
      let bounded : total is_request s.page.effects + ready false ≤ k = rw enabled at (h.bounded) in
      rw e (record {
        timed = rw (more, disabled) (omega (arith, timed));
        bounded =
            rw (disabled, execute-effects w s.page async)
              (omega (
                arith,
                bounded,
                total-append is_request s.page.effects (request _ ∷ notify async ∷ []),
              ));
      })

  waiting-le : (b : Bool) → waiting b ≤ 1
  waiting-le true = omega arith
  waiting-le false = omega arith

  -- The timeout that passes enables the buttons.
  fire-IsPaced :
      (j : ℕ) (s t : Session W) (k : ℕ)
      → t.page ≡ fire w j s.page
      → s.page.timeouts ≡ j
      → IsPaced s k
      → IsPaced t (suc k)
  unfolding fire
  fire-IsPaced zero s t k e none_left h =
      rw e (record { timed = h.timed; bounded = omega (arith, h.bounded) })
  fire-IsPaced (suc j) s t k e left h = rw e (record {
    timed = omega (arith, left, h.timed, waiting-le s.page.download_disabled);
    bounded = omega (arith, h.bounded);
  })

  answered-IsPaced :
      (s : Session W) (i k : ℕ) (result : Option Text) (o : Option Bool)
      → IsPaced s k
      → IsPaced (answered w i result o s) k
  unfolding answered execute_success
  answered-IsPaced s i k result none h = h
  answered-IsPaced s i k none (some async) h = same_pace s _ k refl refl refl h
  answered-IsPaced s i k (some path) (some true) h = same_pace s _ k refl refl refl h
  answered-IsPaced s i k (some path) (some false) h =
      one_effect s _ (open_window _) k refl refl refl refl h

  -- The buttons `Download` and `Copy`.
  ask-IsPaced :
      (async : Bool) (s : Session W) (k : ℕ)
      → s.page.download_disabled ≡ false
      → IsPaced s k
      → IsPaced (ask w async s) k
  unfolding ask
  ask-IsPaced async s k enabled h =
      if_filled s _ _ k (execute-IsPaced async s _ k refl enabled h)
        (same_pace s _ k refl refl refl h)

  step-IsPaced :
      (s : Session W) (e : Event W) (k : ℕ) → IsPaced s k → IsPaced (step w s e) (passes k e)
  unfolding step fill_boxes update_source update_target update_message update_url clear reset
      timeout clear_session validate_interval copy open_in_ais_store recompute_download_url
  step-IsPaced s fill k h = if_filled s s _ k h (same_pace s _ k refl refl refl h)
  step-IsPaced s (write_source box) k h = if_filled s _ s k (same_pace s _ k refl refl refl h) h
  step-IsPaced s (write_target box) k h = if_filled s _ s k (same_pace s _ k refl refl refl h) h
  step-IsPaced s (write_message box) k h = if_filled s _ s k (same_pace s _ k refl refl refl h) h
  step-IsPaced s search_source k h = if_filled s _ s k (same_pace s _ k refl refl refl h) h
  step-IsPaced s search_target k h = if_filled s _ s k (same_pace s _ k refl refl refl h) h
  step-IsPaced s search_message k h = if_filled s _ s k (same_pace s _ k refl refl refl h) h
  step-IsPaced s (edit p) k h = same_pace s _ k refl refl refl h
  step-IsPaced s (validate b) k h = same_pace s _ k refl refl refl h
  step-IsPaced s change_format k h = same_pace s _ k refl refl refl h
  step-IsPaced s (press async) k h =
      if_cases (λ x. IsPaced x k) s.page.download_disabled (λ _. h)
        (λ enabled. ask-IsPaced async s k enabled h)
  step-IsPaced s press_view k h =
      if_cases (λ x. IsPaced x k) s.page.download_disabled (λ _. h)
        (λ _.
          if_filled s _ _ k (one_effect s _ (open_window _) k refl refl refl refl h)
            (same_pace s _ k refl refl refl h))
  step-IsPaced s press_copy k h =
      if_cases (λ x. IsPaced x k) s.page.download_disabled (λ _. h)
        (λ _.
          if_filled s _ _ k (one_effect s _ (prompt _) k refl refl refl refl h)
            (same_pace s _ k refl refl refl h))
  step-IsPaced s press_reset k h = one_effect s _ reload k refl refl refl refl h
  step-IsPaced s (press_clear now) k h =
      if_filled s _ _ k (same_pace s _ k refl refl refl h) (same_pace s _ k refl refl refl h)
  step-IsPaced s time_passes k h = fire-IsPaced s.page.timeouts s _ k refl refl h
  step-IsPaced s (answer i result) k h = answered-IsPaced s i k result (get_elem? s.pending i) h

  foldl-step :
      (events : List (Event W)) (s : Session W) (k : ℕ)
      → IsPaced s k
      → IsPaced (foldl (step w) s events) (foldl passes k events)
  foldl-step [] s k h = h
  foldl-step (e ∷ events) s k h = foldl-step events (step w s e) (passes k e) (step-IsPaced s e k h)

  -- In any session that begins with `init`, the download buttons are disabled exactly while one
  -- timeout is pending, and never is a second one pending; and however often the buttons are
  -- pressed, the queries that were sent, and the one that may be sent while the buttons are enabled,
  -- are at most one more than the timeouts that have passed.
  pub run-IsPaced :
      (now : ℤ) (storage : Storage) (events : List (Event W))
      → IsPaced (run w now storage events) (foldl passes 1 events)
  unfolding load
  run-IsPaced now storage events =
      foldl-step events (start w now storage) 1 (record { timed = refl; bounded = omega arith })
