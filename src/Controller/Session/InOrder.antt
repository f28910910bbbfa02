-- ===== src/Controller/Session/InOrder.antt =====
-- The intervals of the queries that leave the search page, event by event.
use ais_store.Prelude.{
  ◌++◌, ◌⊎◌, inl, inr, Bool, true, false, Option, none, some, List, [], ◌∷◌, ◌≡◌, refl, ℕ,
  get_elem?, All, All-append,
}
use ais_store.Text.{Text}
use ais_store.Number.{Number}
use ais_store.Params.{Params}
use ais_store.Service.{Storage, execute_url, open_file_url}
use ais_store.Interval.Ordered.{IsOrdered}
use ais_store.Facet.Source.{update_source_filter_lem}
use ais_store.Facet.Target.{update_target_filter_lem}
use ais_store.Facet.Message.{update_message_filter_lem}
use ais_store.Url.{update_download_url}
use ais_store.Controller.{
  Page, World, Effect, request, notify, open_window, prompt, reload, query_url, fill_boxes,
  update_source, update_target, update_message, validate_interval, update_url,
  recompute_download_url, execute, execute_success, open_in_ais_store, copy, clear, reset,
}
use ais_store.Controller.Fresh.{query_params, execute-effects}
use ais_store.Controller.Session.Sound.{if_both}
use ais_store.Controller.Session.Windows.{timeout-effects}
use ais_store.Controller.Session.{
  Session, Event, fill, write_source, write_target, write_message, search_source, search_target,
  search_message, edit, validate, change_format, press, press_view, press_copy, press_reset,
  press_clear, time_passes, answer, ask, clear_session, answered, step,
}

module _ {W : Type 0} where
  -- Reading the boxes keeps the dates.
  query_params-IsOrdered : (c : Page W) → IsOrdered c.params → IsOrdered (query_params c)
  query_params-IsOrdered c h = rw (update_message_filter_lem c.message_filter _) (
      rw (update_target_filter_lem c.target_filter _)
        (rw (update_source_filter_lem c.source_filter c.params) h))

module _ {W : Type 0} ⦃n : Number W⦄ (w : World W) where
  -- The text is a query for an interval whose start is not behind its end, put into `at`.
  abbrev pub IsOrderedQuery : (Text → Text) → Text → Type 0
  IsOrderedQuery at url = (p : Params W) × IsOrdered p × (url ≡ at (update_download_url w.moment p))

  -- A query that is sent, opened in AisView or shown to be copied asks for such an interval; the
  -- other windows show files.
  abbrev pub InOrder : Effect → Type 0
  InOrder (request url) =
      (async : Bool) × (storage : Storage) × IsOrderedQuery
        (λ query. (execute_url w.browser query async storage).0) url
  InOrder (open_window url) =
      IsOrderedQuery (λ query. query_url w ++ query) url
      ⊎ ((path : Text) × (url ≡ open_file_url path))
  InOrder (prompt url) = IsOrderedQuery (λ query. query_url w ++ query) url
  InOrder (notify async) = Unit
  InOrder reload = Unit

  abbrev pub AreInOrder : Session W → Type 0
  AreInOrder s = All InOrder s.page.effects

  -- The page does one thing more.
  and_then :
      (effects : List Effect) (e : Effect)
      → InOrder e
      → All InOrder effects
      → All InOrder (effects ++ e ∷ [])
  and_then effects e one h = All-append InOrder effects (e ∷ []) h (one, tt)

  execute-InOrder :
      (async : Bool) (c : Page W)
      → IsOrdered c.params
      → All InOrder c.effects
      → All InOrder (execute w async c).effects
  execute-InOrder async c o h = rw (execute-effects w c async) (
      All-append InOrder c.effects _ h
        ((async, c.storage, (query_params c, query_params-IsOrdered c o, refl)), (tt, tt)))

  answered-InOrder :
      (s : Session W) (k : ℕ) (result : Option Text) (o : Option Bool)
      → AreInOrder s
      → AreInOrder (answered w k result o s)
  unfolding answered execute_success
  answered-InOrder s k result none h = h
  answered-InOrder s k none (some async) h = h
  answered-InOrder s k (some path) (some true) h = h
  answered-InOrder s k (some path) (some false) h =
      and_then s.page.effects (open_window _) (inr (path, refl)) h

  pub step-InOrder :
      (s : Session W) (e : Event W)
      → IsOrdered s.page.params
      → AreInOrder s
      → AreInOrder (step w s e)
  unfolding step fill_boxes update_source update_target update_message update_url clear ask reset
      clear_session validate_interval copy open_in_ais_store recompute_download_url
  step-InOrder s fill o h = if_both AreInOrder s.filled h h
  step-InOrder s (write_source box) o h = if_both AreInOrder s.filled h h
  step-InOrder s (write_target box) o h = if_both AreInOrder s.filled h h
  step-InOrder s (write_message box) o h = if_both AreInOrder s.filled h h
  step-InOrder s search_source o h = if_both AreInOrder s.filled h h
  step-InOrder s search_target o h = if_both AreInOrder s.filled h h
  step-InOrder s search_message o h = if_both AreInOrder s.filled h h
  step-InOrder s (edit p) o h = h
  step-InOrder s (validate b) o h = h
  step-InOrder s change_format o h = h
  step-InOrder s (press async) o h =
      if_both AreInOrder s.page.download_disabled h
        (if_both AreInOrder s.filled (execute-InOrder async s.page o h) h)
  step-InOrder s press_view o h = if_both AreInOrder s.page.download_disabled h (
      if_both AreInOrder s.filled
        (and_then s.page.effects (open_window _)
          (inl (query_params s.page, query_params-IsOrdered s.page o, refl)) h)
        h)
  step-InOrder s press_copy o h = if_both AreInOrder s.page.download_disabled h (
      if_both AreInOrder s.filled
        (and_then s.page.effects (prompt _)
          (query_params s.page, query_params-IsOrdered s.page o, refl) h)
        h)
  step-InOrder s press_reset o h = and_then s.page.effects reload tt h
  step-InOrder s (press_clear now) o h = if_both AreInOrder s.filled h h
  step-InOrder s time_passes o h = rw (timeout-effects w s.page) h
  step-InOrder s (answer k result) o h = answered-InOrder s k result (get_elem? s.pending k) h
