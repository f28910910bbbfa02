-- ===== src/Controller/Session/Windows.antt =====
-- Which windows a session of the search page opens.
use ais_store.Prelude.{
  ℕ, zero, suc, ◌++◌, ◌∙◌, sym, ap, Bool, true, false, Option, none, some, List, [], ◌∷◌, ◌≡◌, refl,
  foldl, if◌then◌else◌, get_elem?, append-nil, append_assoc, inl, inr, Bool-cases,
}
use ais_store.Prelude.Int.{ℤ}
use ais_store.Text.{Text}
use ais_store.Number.{Number}
use ais_store.Service.{Storage, open_file_url}
use ais_store.Url.{update_download_url}
use ais_store.Controller.{
  Page, World, Effect, request, notify, open_window, prompt, reload, query_url, fill_boxes, load,
  update_source, update_target, update_message, validate_interval, update_url,
  recompute_download_url, execute_success, open_in_ais_store, copy, clear, reset, fire, timeout,
}
use ais_store.Controller.Fresh.{query_params, execute-effects}
use ais_store.Controller.Session.Sound.{if_both}
use ais_store.Controller.Session.{
  Session, Event, fill, write_source, write_target, write_message, search_source, search_target,
  search_message, edit, validate, change_format, press, press_view, press_copy, press_reset,
  press_clear, time_passes, answer, ask, clear_session, answered, step, start, run,
}

-- The windows among the effects, in order.
abbrev pub windows : List Effect → List Text
windows [] = []
windows (request url ∷ es) = windows es
windows (notify async ∷ es) = windows es
windows (open_window url ∷ es) = url ∷ windows es
windows (prompt url ∷ es) = windows es
windows (reload ∷ es) = windows es

windows-append : (xs ys : List Effect) → windows (xs ++ ys) ≡ windows xs ++ windows ys
windows-append [] ys = refl
windows-append (request url ∷ xs) ys = windows-append xs ys
windows-append (notify async ∷ xs) ys = windows-append xs ys
windows-append (open_window url ∷ xs) ys = ap (λ zs. url ∷ zs) (windows-append xs ys)
windows-append (prompt url ∷ xs) ys = windows-append xs ys
windows-append (reload ∷ xs) ys = windows-append xs ys

-- The window for the answer to a query, by its result and its flag `async`: the file, where the
-- query is pending, did not run asynchronously and did not fail.
abbrev pub file_of : Option Text → Option Bool → List Text
file_of result none = []
file_of none (some async) = []
file_of (some path) (some true) = []
file_of (some path) (some false) = open_file_url path ∷ []

module _ {W : Type 0} ⦃n : Number W⦄ (w : World W) where
  -- The window of AisView, where its entry can be reached and the boxes exist.
  abbrev pub view_of : Session W → List Text
  view_of s =
      if s.page.download_disabled
      then []
      else if s.filled
      then (query_url w ++ update_download_url w.moment (query_params s.page)) ∷ []
      else []

  abbrev pub opened_by : Session W → Event W → List Text
  opened_by s press_view = view_of s
  opened_by s (answer k result) = file_of result (get_elem? s.pending k)
  opened_by s _ = []

  abbrev pub all_opened : Session W → List (Event W) → List Text
  all_opened s [] = []
  all_opened s (e ∷ events) = opened_by s e ++ all_opened (step w s e) events

  -- The windows of `t` are those of `s` and `more`.
  abbrev Opens : Session W → List Text → Session W → Type 0
  Opens s more t = windows t.page.effects ≡ windows s.page.effects ++ more

  none_more : (s : Session W) → Opens s [] s
  none_more s = sym (append-nil (windows s.page.effects))

  fire-effects : (k : ℕ) (c : Page W) → (fire w k c).effects ≡ c.effects
  unfolding fire
  fire-effects zero c = refl
  fire-effects (suc k) c = refl

  pub timeout-effects : (c : Page W) → (timeout w c).effects ≡ c.effects
  unfolding timeout
  timeout-effects c = fire-effects c.timeouts c

  answered-Opens :
      (s : Session W) (k : ℕ) (result : Option Text) (o : Option Bool)
      → Opens s (file_of result o) (answered w k result o s)
  unfolding answered execute_success
  answered-Opens s k result none = none_more s
  answered-Opens s k none (some async) = none_more s
  answered-Opens s k (some path) (some true) = none_more s
  answered-Opens s k (some path) (some false) =
      windows-append s.page.effects (open_window (open_file_url path) ∷ [])

  ask-Opens : (async : Bool) (s : Session W) → Opens s [] (ask w async s)
  unfolding ask
  ask-Opens async s =
      if_both (Opens s []) s.filled
        (ap windows (execute-effects w s.page async)
          ∙ windows-append s.page.effects (request _ ∷ notify async ∷ []))
        (none_more s)

  view-Opens : (s : Session W) → Opens s (view_of s) (step w s press_view)
  unfolding step open_in_ais_store recompute_download_url update_source update_target update_message
      update_url
  view-Opens s = elim (Bool-cases s.page.download_disabled) [
    | inl e ↦ rw e (none_more s)
    | inr e ↦ rw e (elim (Bool-cases s.filled) [
      | inl f ↦ rw f (windows-append s.page.effects (open_window _ ∷ []))
      | inr f ↦ rw f (none_more s)
    ])
  ]

  step-Opens : (s : Session W) (e : Event W) → Opens s (opened_by s e) (step w s e)
  unfolding step fill_boxes update_source update_target update_message update_url clear reset
      clear_session validate_interval copy recompute_download_url
  step-Opens s fill = if_both (Opens s []) s.filled (none_more s) (none_more s)
  step-Opens s (write_source box) = if_both (Opens s []) s.filled (none_more s) (none_more s)
  step-Opens s (write_target box) = if_both (Opens s []) s.filled (none_more s) (none_more s)
  step-Opens s (write_message box) = if_both (Opens s []) s.filled (none_more s) (none_more s)
  step-Opens s search_source = if_both (Opens s []) s.filled (none_more s) (none_more s)
  step-Opens s search_target = if_both (Opens s []) s.filled (none_more s) (none_more s)
  step-Opens s search_message = if_both (Opens s []) s.filled (none_more s) (none_more s)
  step-Opens s (edit p) = none_more s
  step-Opens s (validate b) = none_more s
  step-Opens s change_format = none_more s
  step-Opens s (press async) =
      if_both (Opens s []) s.page.download_disabled (none_more s) (ask-Opens async s)
  step-Opens s press_view = view-Opens s
  step-Opens s press_copy =
      if_both (Opens s []) s.page.download_disabled (none_more s) (
        if_both (Opens s []) s.filled (windows-append s.page.effects (prompt _ ∷ [])) (none_more s))
  step-Opens s press_reset = windows-append s.page.effects (reload ∷ [])
  step-Opens s (press_clear now) = if_both (Opens s []) s.filled (none_more s) (none_more s)
  step-Opens s time_passes = ap windows (timeout-effects s.page) ∙ none_more s
  step-Opens s (answer k result) = answered-Opens s k result (get_elem? s.pending k)

  foldl-step :
      (events : List (Event W)) (s : Session W)
      → Opens s (all_opened s events) (foldl (step w) s events)
  foldl-step [] s = none_more s
  foldl-step (e ∷ events) s =
      foldl-step events (step w s e)
      ∙ ap (λ xs. xs ++ all_opened (step w s e) events) (step-Opens s e)
      ∙ append_assoc (windows s.page.effects) (opened_by s e) (all_opened (step w s e) events)

  -- In any session that begins with `init`, in whatever order the queries are answered, the windows
  -- that were opened are exactly, in this order: for each answer to a pending query that did not run
  -- asynchronously and did not fail, the file of the answer; and for each call of AisView that is
  -- not disabled, once the boxes exist, its query of the boxes as they stand. No other event opens
  -- a window.
  pub run-windows :
      (now : ℤ) (storage : Storage) (events : List (Event W))
      → windows (run w now storage events).page.effects ≡ all_opened (start w now storage) events
  unfolding load
  run-windows now storage events = foldl-step events (start w now storage)
