-- ===== src/Controller/Session.antt =====
-- A session of the search page of js/app-ctrl.js, from the call of `init` on: the boxes are filled by
-- a timeout, the user edits and presses buttons, and the backend answers the queries in any order.

pub mod Sound
pub mod Windows
pub mod Paced
pub mod Lasting
pub mod InOrder
use ais_store.Prelude.{
  ℕ, suc, Bool, true, false, Option, none, some, List, [], ◌∷◌, ◌++◌, if◌then◌else◌, get_elem?,
  remove_at, foldl,
}
use ais_store.Prelude.Int.{ℤ}
use ais_store.Text.{Text}
use ais_store.Number.{Number}
use ais_store.Params.{Params, clear_params}
use ais_store.Service.{Storage}
use ais_store.Facet.{FilterBox}
use ais_store.Controller.{
  Page, World, fill_boxes, load, update_source, update_target, update_message, validate_interval,
  update_url, execute, execute_success, open_in_ais_store, copy, clear, reset, timeout,
}

pub record Session (W : Type 0) : Type 0 where
  pub page : Page W
  -- whether the boxes exist
  pub filled : Bool
  -- the queries that are not answered, each with its flag `async`
  pub pending : List Bool
  -- the exceptions that were thrown
  pub thrown : ℕ

pub data Event (W : Type 0) : Type 0 where
  -- the timeout of `init`
  fill : Event W
  -- the user writes in a box, which then has any text and facets: input that is not committed shows
  -- in the text and not in the facets; and asks it to search
  write_source write_target write_message : FilterBox → Event W
  search_source search_target search_message : Event W
  -- the fields of the page set parameters, but not the version; the watches call their handlers
  edit : Params W → Event W
  validate : Bool → Event W
  change_format : Event W
  -- the buttons
  press : Bool → Event W
  press_view press_copy press_reset : Event W
  press_clear : ℤ → Event W
  -- the two seconds of a timeout of `execute` have passed
  time_passes : Event W
  -- the k-th pending query is answered, by the path of a file or by an error
  answer : ℕ → Option Text → Event W

module _ {W : Type 0} where
  abbrev pub on_page : (Page W → Page W) → Session W → Session W
  on_page f s = record s { page = f s.page }

  abbrev pub throw : Session W → Session W
  throw s = record s { thrown = suc s.thrown }

  -- A handler that begins by reading a box, which throws where there is none.
  abbrev pub with_boxes : (Page W → Page W) → Session W → Session W
  with_boxes f s = if s.filled then on_page f s else throw s

  -- What a box itself calls or changes.
  abbrev pub in_box : (Page W → Page W) → Session W → Session W
  in_box f s = if s.filled then on_page f s else s

  -- A button with `ng-disabled` in query.html, or an entry of the menu that such a button opens.
  abbrev pub unless_disabled : (Session W → Session W) → Session W → Session W
  unless_disabled f s = if s.page.download_disabled then s else f s

module _ {W : Type 0} ⦃n : Number W⦄ (w : World W) where
  -- `execute`, whose request is pending afterwards.
  ask : Bool → Session W → Session W
  ask async s =
      if s.filled
      then record s { page = execute w async s.page; pending = s.pending ++ async ∷ [] }
      else throw s

  -- `clear` sets the parameters before it writes to the boxes.
  clear_session : ℤ → Session W → Session W
  clear_session now s =
      if s.filled
      then on_page (clear w now) s
      else throw (on_page (λ c. record c { params = clear_params w.moment now }) s)

  -- The callbacks of `execute`.
  answered : ℕ → Option Text → Option Bool → Session W → Session W
  answered k result none s = s
  answered k none (some async) s = record s { pending = remove_at k s.pending }
  answered k (some path) (some async) s = record s {
    page = execute_success w async path s.page;
    pending = remove_at k s.pending;
  }

  unfoldable pub step : Session W → Event W → Session W
  unfolding ask clear_session answered
  step s fill = if s.filled then s else record s { page = fill_boxes w s.page; filled = true }
  step s (write_source box) = in_box (λ c. record c { source_filter = box }) s
  step s (write_target box) = in_box (λ c. record c { target_filter = box }) s
  step s (write_message box) = in_box (λ c. record c { message_filter = box }) s
  step s search_source = in_box (update_source w true) s
  step s search_target = in_box (update_target w true) s
  step s search_message = in_box (update_message w true) s
  step s (edit p) = on_page (λ c. record c { params = record p { version = c.params.version } }) s
  step s (validate start_date_updated) = on_page (validate_interval w start_date_updated) s
  step s change_format = on_page (update_url w) s
  step s (press async) = unless_disabled (ask async) s
  step s press_view = unless_disabled (with_boxes (open_in_ais_store w)) s
  step s press_copy = unless_disabled (with_boxes (copy w)) s
  step s press_reset = on_page (reset w) s
  step s (press_clear now) = clear_session now s
  step s time_passes = on_page (timeout w) s
  step s (answer k result) = answered k result (get_elem? s.pending k) s

  -- The page as `init` leaves it at the time `now`.
  abbrev pub start : ℤ → Storage → Session W
  start now storage = record { page = load w now storage; filled = false; pending = []; thrown = 0 }

  -- The session after the events.
  abbrev pub run : ℤ → Storage → List (Event W) → Session W
  run now storage events = foldl step (start now storage) events
