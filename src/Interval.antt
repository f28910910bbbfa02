-- ===== src/Interval.antt =====
-- The time interval of js/app-ctrl.js: `validateTimeInterval` up to its update of the URL.
pub mod Ordered
use ais_store.Prelude.{Bool, not, ◌&&◌, if◌then◌else◌}
use ais_store.Prelude.Int.{ℤ, pos, negsuc, ltb_ℤ}
use ais_store.Number.{Moment}
use ais_store.Params.{Params}

-- The end follows an edited start by ten minutes, and the start precedes an edited end by ten,
-- where they are out of order.
unfoldable pub validate_time_interval : {W : Type 0} → Moment → Bool → Params W → Params W
validate_time_interval m start_date_updated p =
    if start_date_updated && ltb_ℤ p.end_date p.start_date
    then record p { end_date = m.add_minutes p.start_date (pos 10) }
    else if not start_date_updated && ltb_ℤ p.end_date p.start_date
    then record p { start_date = m.add_minutes p.end_date (negsuc 9) }
    else p
