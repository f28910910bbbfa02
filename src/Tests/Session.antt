-- ===== src/Tests/Session.antt =====
-- A session of the search page.
use ais_store.Prelude.{
  ℕ, true, false, some, none, List, [], ◌∷◌, ◌≡◌, refl, if◌then◌else◌, foldl, All,
}
use ais_store.Prelude.Int.{pos, ◌+ℤ◌}
use ais_store.Text.{codes, text_eq}
use ais_store.Number.Whole.{whole, whole_dates-IsExact}
use ais_store.Params.{Params, clear_params}
use ais_store.Service.{empty_storage, get_search_params}
use ais_store.Controller.{
  World, request, notify, execute, load, fill_boxes, update_source, update_url, validate_interval,
}
use ais_store.Controller.Fresh.{query_params, request_url}
use ais_store.Controller.Reopened.{IsRead, reopened}
use ais_store.Controller.Session.{
  Event, fill, write_source, search_source, edit, press, press_view, press_clear, time_passes,
  answer, step, start, run,
}
use ais_store.Controller.Session.Sound.{IsSound, foldl-step-IsSound}
use ais_store.Controller.Session.Windows.{windows, all_opened, run-windows}
use ais_store.Controller.Session.Paced.{IsPaced, passes, run-IsPaced}
use ais_store.Interval.{validate_time_interval}
use ais_store.Controller.Digest.{
  pass, start_watch, end_watch, format_watch, start_changed, end_changed, format_changed,
}
use ais_store.Controller.Live.{live_start, live_step, live_run}
use ais_store.Controller.Live.InOrder.{live_run-InOrder}
use ais_store.Controller.Session.InOrder.{InOrder}
use ais_store.Controller.Session.Lasting.{execute-session}
use ais_store.Tests.Samples.{sample, source_box, browser, world}

-- VisualSearch reads one text.
abbrev reading : World ℕ
reading = record world {
  read = λ text.
      if text_eq text source_box.text then source_box else record { text = text; facets = [] };
}

-- A query before the boxes exist, which throws; then two queries, of which the later one is answered
-- first.
abbrev busy : List (Event ℕ)
busy =
    press false
    ∷ fill
    ∷ write_source source_box
    ∷ search_source
    ∷ press false
    ∷ time_passes
    ∷ press_view
    ∷ press false
    ∷ answer 1 (some (codes "b.csv"))
    ∷ answer 0 none
    ∷ []

foldl-step-IsSound_example : IsSound reading (run reading (pos 7200000) empty_storage busy)
foldl-step-IsSound_example = foldl-step-IsSound reading (pos 7200000) empty_storage busy

run-windows_example :
    windows (run reading (pos 7200000) empty_storage busy).page.effects
    ≡ all_opened reading (start reading (pos 7200000) empty_storage) busy
run-windows_example = run-windows reading (pos 7200000) empty_storage busy

run-IsPaced_example : IsPaced (run reading (pos 7200000) empty_storage busy) (foldl passes 1 busy)
run-IsPaced_example = run-IsPaced reading (pos 7200000) empty_storage busy

-- The user writes into a box and sets the MMSI numbers and the area.
abbrev quiet : List (Event ℕ)
quiet = fill ∷ write_source source_box ∷ search_source ∷ edit sample ∷ []

-- A browser that writes one text for all parameters, and reads from it those of the session.
abbrev saved : Params ℕ
saved = query_params (run reading (pos 7200000) empty_storage quiet).page

abbrev lasting : World ℕ
lasting = record reading {
  browser = record browser { stringify = λ p. some (codes "{}"); parse = λ text. some saved };
}

quiet_filled : (run lasting (pos 7200000) empty_storage quiet).filled ≡ true
unfolding step
quiet_filled = refl

-- No input waits in a box.
quiet-IsRead :
    IsRead lasting (run lasting (pos 7200000) empty_storage quiet).page.source_filter
    × IsRead lasting (run lasting (pos 7200000) empty_storage quiet).page.target_filter
    × IsRead lasting (run lasting (pos 7200000) empty_storage quiet).page.message_filter
unfolding step load fill_boxes update_source update_url get_search_params clear_params text_eq codes
quiet-IsRead = (refl, refl, refl)

saved_again : some saved ≡ some (query_params (run lasting (pos 7200000) empty_storage quiet).page)
unfolding step load fill_boxes update_source update_url get_search_params
saved_again = refl

execute-session_example :
    (execute lasting false (
      reopened lasting
        (run lasting (pos 7200000) empty_storage quiet).page
        true
        (pos 9000000))).effects
    ≡ request (request_url lasting false (run lasting (pos 7200000) empty_storage quiet).page).0
      ∷ notify false
      ∷ []
execute-session_example =
    execute-session lasting (pos 7200000) empty_storage quiet true (pos 9000000) (codes "{}")
      quiet_filled quiet-IsRead.0 quiet-IsRead.1 quiet-IsRead.2 refl saved_again refl false

-- The query before the boxes exist throws, and nothing else happens; `clear` then sets the
-- parameters all the same.
early_run :
    (run reading (pos 7200000) empty_storage (press false ∷ press_clear (pos 9000000) ∷ [])).thrown
    ≡ 2
unfolding step load
early_run = refl

-- With the digests: the start is set behind the end, and one box is searched.
abbrev astray : List (Event ℕ)
astray =
    fill
    ∷ edit (record sample { start_date = pos 9000000; end_date = pos 0 })
    ∷ write_source source_box
    ∷ search_source
    ∷ press_view
    ∷ press true
    ∷ []

live_run-InOrder_example :
    All (InOrder reading) (live_run reading (pos 7200000) empty_storage astray).watched.page.effects
live_run-InOrder_example =
    live_run-InOrder reading whole_dates-IsExact (pos 7200000) empty_storage astray

abbrev swapped : List (Event ℕ)
swapped = edit (record sample { start_date = pos 9000000; end_date = pos 0 }) ∷ []

-- The watch on the start moves the end.
swapped_end :
    (live_run reading (pos 7200000) empty_storage swapped).watched.page.params.end_date
    ≡ pos 9600000
unfolding live_start live_step step load pass start_watch end_watch format_watch start_changed
    end_changed format_changed validate_interval validate_time_interval update_url get_search_params
    clear_params ◌+ℤ◌ text_eq codes
swapped_end = refl
