-- ===== src/Controller/Session/Sound.antt =====
-- What holds throughout a session of the search page.
use ais_store.Prelude.{
  zero, suc, All-append, ℕ, Bool, true, false, Option, none, some, List, [], ◌∷◌, ◌≡◌, refl, ◌∙◌,
  ap, arith, foldl, All, inl, inr, Bool-cases, if◌then◌else◌, get_elem?,
}
use ais_store.Prelude.Int.{ℤ}
use ais_store.Text.{Text}
use ais_store.Number.{Number}
use ais_store.Params.{Params, current_version, clear_params}
use ais_store.Facet.{FilterBox, update_source_filter, update_target_filter, update_message_filter}
use ais_store.Facet.Source.{update_source_filter_lem}
use ais_store.Facet.Target.{update_target_filter_lem}
use ais_store.Facet.Message.{update_message_filter_lem}
use ais_store.Interval.{validate_time_interval}
use ais_store.Service.{Storage}
use ais_store.Service.Saving.{version-get_search_params}
use ais_store.Controller.{
  Page, World, Effect, reload, fill_boxes, load, update_source, update_target, update_message,
  validate_interval, update_url, recompute_download_url, send, execute, execute_success,
  open_in_ais_store, copy, clear, reset, fire, timeout,
}
use ais_store.Controller.Fresh.{query_params}
use ais_store.Controller.Session.{
  Session, Event, fill, write_source, write_target, write_message, search_source, search_target,
  search_message, edit, validate, change_format, press, press_view, press_copy, press_reset,
  press_clear, time_passes, answer, ask, clear_session, answered, step, start, run,
}

abbrev pub IsReload : Effect → Type 0
IsReload reload = Unit
IsReload _ = ⊥

module _ {W : Type 0} where
  -- Both branches of a test have a property.
  pub if_both {ℓ} :
      (P : Session W → Type ℓ) (b : Bool) {s t : Session W} → P s → P t → P (if b then s else t)
  if_both P true h k = h
  if_both P false h k = k

  -- Reading the boxes keeps the version.
  source-version :
      (box : FilterBox) (p : Params W) → (update_source_filter box p).version ≡ p.version
  source-version box p = ap (λ (q : Params W). q.version) (update_source_filter_lem box p)

  target-version :
      (box : FilterBox) (p : Params W) → (update_target_filter box p).version ≡ p.version
  target-version box p = ap (λ (q : Params W). q.version) (update_target_filter_lem box p)

  message-version :
      (box : FilterBox) (p : Params W) → (update_message_filter box p).version ≡ p.version
  message-version box p = ap (λ (q : Params W). q.version) (update_message_filter_lem box p)

  pub query_params-version : (c : Page W) → (query_params c).version ≡ c.params.version
  query_params-version c =
      message-version c.message_filter _
      ∙ target-version c.target_filter _
      ∙ source-version c.source_filter c.params

module _ {W : Type 0} ⦃n : Number W⦄ (w : World W) where
  abbrev IsCurrent : Page W → Type 0
  IsCurrent c = c.params.version ≡ current_version

  -- The parameters have the current version, and until the boxes exist nothing was sent, opened or
  -- shown.
  pub record IsSound (s : Session W) : Type 0 where
    pub version : s.page.params.version ≡ current_version
    pub quiet : s.filled ≡ false → All IsReload s.page.effects × (s.pending ≡ [])

  validated-version :
      (b : Bool) (c : Page W) → (validate_interval w b c).params.version ≡ c.params.version
  unfolding validate_interval validate_time_interval update_url
  validated-version b c = ground arith

  recomputed-version : (c : Page W) → (recompute_download_url w c).params.version ≡ c.params.version
  unfolding recompute_download_url update_source update_target update_message update_url
  recomputed-version c = query_params-version c

  execute-version :
      (async : Bool) (c : Page W) → (execute w async c).params.version ≡ c.params.version
  unfolding execute send recompute_download_url update_source update_target update_message
      update_url
  execute-version async c = query_params-version c

  fire-version : (k : ℕ) (c : Page W) → (fire w k c).params.version ≡ c.params.version
  unfolding fire
  fire-version zero c = refl
  fire-version (suc k) c = refl

  -- A session with its boxes.
  abbrev shown : Page W → List Bool → ℕ → Session W
  shown c pending thrown = record { page = c; filled = true; pending = pending; thrown = thrown }

  abbrev IsOpen : Session W → Type 0
  IsOpen s = (s.filled ≡ true) × IsCurrent s.page

  answered-IsOpen :
      (c : Page W) (pending : List Bool) (thrown k : ℕ) (result : Option Text) (o : Option Bool)
      → IsCurrent c
      → IsOpen (answered w k result o (shown c pending thrown))
  unfolding answered execute_success
  answered-IsOpen c pending thrown k result none h = (refl, h)
  answered-IsOpen c pending thrown k none (some async) h = (refl, h)
  answered-IsOpen c pending thrown k (some path) (some true) h = (refl, h)
  answered-IsOpen c pending thrown k (some path) (some false) h = (refl, h)

  step-IsOpen :
      (c : Page W) (pending : List Bool) (thrown : ℕ) (e : Event W)
      → IsCurrent c
      → IsOpen (step w (shown c pending thrown) e)
  unfolding step update_source update_target update_message update_url clear clear_params ask copy
      open_in_ais_store reset timeout clear_session fill_boxes
  step-IsOpen c pending thrown fill h = (refl, h)
  step-IsOpen c pending thrown (write_source box) h = (refl, h)
  step-IsOpen c pending thrown (write_target box) h = (refl, h)
  step-IsOpen c pending thrown (write_message box) h = (refl, h)
  step-IsOpen c pending thrown search_source h = (refl, source-version c.source_filter c.params ∙ h)
  step-IsOpen c pending thrown search_target h = (refl, target-version c.target_filter c.params ∙ h)
  step-IsOpen c pending thrown search_message h =
      (refl, message-version c.message_filter c.params ∙ h)
  step-IsOpen c pending thrown (edit p) h = (refl, h)
  step-IsOpen c pending thrown (validate b) h = (refl, validated-version b c ∙ h)
  step-IsOpen c pending thrown change_format h = (refl, h)
  step-IsOpen c pending thrown (press async) h =
      if_both IsOpen c.download_disabled (refl, h) (refl, execute-version async c ∙ h)
  step-IsOpen c pending thrown press_view h =
      if_both IsOpen c.download_disabled (refl, h) (refl, recomputed-version c ∙ h)
  step-IsOpen c pending thrown press_copy h =
      if_both IsOpen c.download_disabled (refl, h) (refl, recomputed-version c ∙ h)
  step-IsOpen c pending thrown press_reset h = (refl, h)
  step-IsOpen c pending thrown (press_clear now) h = (refl, refl)
  step-IsOpen c pending thrown time_passes h = (refl, fire-version c.timeouts c ∙ h)
  step-IsOpen c pending thrown (answer k result) h =
      answered-IsOpen c pending thrown k result (get_elem? pending k) h

  -- A page without its boxes.
  abbrev IsBlank : Page W → Type 0
  IsBlank c = (c.params.version ≡ current_version) × All IsReload c.effects

  -- A session without its boxes.
  abbrev empty : Page W → ℕ → Session W
  empty c thrown = record { page = c; filled = false; pending = []; thrown = thrown }

  IsOpen-IsSound : (s : Session W) → IsOpen s → IsSound s
  IsOpen-IsSound s (filled, h) = record { version = h; quiet = λ blank. cc }

  IsBlank-IsSound : (c : Page W) (thrown : ℕ) → IsBlank c → IsSound (empty c thrown)
  IsBlank-IsSound c thrown (v, e) = record { version = v; quiet = λ _. (e, refl) }

  fire-IsBlank : (k : ℕ) (c : Page W) → IsBlank c → IsBlank (fire w k c)
  unfolding fire
  fire-IsBlank zero c h = h
  fire-IsBlank (suc k) c h = h

  validated-IsBlank : (b : Bool) (c : Page W) → IsBlank c → IsBlank (validate_interval w b c)
  unfolding validate_interval update_url
  validated-IsBlank b c (v, e) = (validated-version b c ∙ v, e)

  step-empty :
      (c : Page W) (thrown : ℕ) (e : Event W) → IsBlank c → IsSound (step w (empty c thrown) e)
  unfolding step fill_boxes update_url ask copy open_in_ais_store reset timeout clear_session
      clear_params answered
  step-empty c thrown fill h = IsOpen-IsSound _ (refl, h.0)
  step-empty c thrown (write_source box) h = IsBlank-IsSound c thrown h
  step-empty c thrown (write_target box) h = IsBlank-IsSound c thrown h
  step-empty c thrown (write_message box) h = IsBlank-IsSound c thrown h
  step-empty c thrown search_source h = IsBlank-IsSound c thrown h
  step-empty c thrown search_target h = IsBlank-IsSound c thrown h
  step-empty c thrown search_message h = IsBlank-IsSound c thrown h
  step-empty c thrown (edit p) h = IsBlank-IsSound _ thrown h
  step-empty c thrown (validate b) h = IsBlank-IsSound _ thrown (validated-IsBlank b c h)
  step-empty c thrown change_format h = IsBlank-IsSound _ thrown h
  step-empty c thrown (press async) h =
      if_both IsSound c.download_disabled (IsBlank-IsSound c thrown h)
        (IsBlank-IsSound c (suc thrown) h)
  step-empty c thrown press_view h =
      if_both IsSound c.download_disabled (IsBlank-IsSound c thrown h)
        (IsBlank-IsSound c (suc thrown) h)
  step-empty c thrown press_copy h =
      if_both IsSound c.download_disabled (IsBlank-IsSound c thrown h)
        (IsBlank-IsSound c (suc thrown) h)
  step-empty c thrown press_reset h =
      IsBlank-IsSound _ thrown (h.0, All-append IsReload c.effects (reload ∷ []) h.1 (tt, tt))
  step-empty c thrown (press_clear now) h = IsBlank-IsSound _ (suc thrown) (refl, h.1)
  step-empty c thrown time_passes h = IsBlank-IsSound _ thrown (fire-IsBlank c.timeouts c h)
  step-empty c thrown (answer k result) h = IsBlank-IsSound c thrown h

  step-IsSound : (s : Session W) (e : Event W) → IsSound s → IsSound (step w s e)
  step-IsSound s e h = elim (Bool-cases s.filled) [
    | inl filled ↦
        let at : s ≡ shown s.page s.pending s.thrown = ap (λ b. record s { filled = b }) filled in
        rw at (IsOpen-IsSound _ (step-IsOpen s.page s.pending s.thrown e h.version))
    | inr blank ↦
        let (reloads, none_pending) = h.quiet blank in
        let at : s ≡ empty s.page s.thrown =
          ap (λ b. record s { filled = b }) blank
          ∙ ap (λ xs. record (empty s.page s.thrown) { pending = xs }) none_pending in
        rw at (step-empty s.page s.thrown e (h.version, reloads))
  ]

  foldl-step :
      (events : List (Event W)) (s : Session W) → IsSound s → IsSound (foldl (step w) s events)
  foldl-step [] s h = h
  foldl-step (e ∷ events) s h = foldl-step events (step w s e) (step-IsSound s e h)

  -- From the call of `init` on, whatever the user, the timeouts and the backend do, the parameters
  -- have the current version; and before the boxes exist no query was sent, no window opened and no
  -- message shown.
  pub foldl-step-IsSound :
      (now : ℤ) (storage : Storage) (events : List (Event W)) → IsSound (run w now storage events)
  unfolding load
  foldl-step-IsSound now storage events = foldl-step events (start w now storage) (
      IsBlank-IsSound (load w now storage) 0
        (version-get_search_params w.browser w.moment now storage, tt))
