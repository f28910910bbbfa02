-- ===== src/Interval/Ordered.antt =====
-- The order of the two dates after `validateTimeInterval`, and its repetition.
use ais_store.Prelude.{◌+◌, ◌*◌, Bool, true, false, ◌≡◌, arith}
use ais_store.Prelude.Int.{ℤ, pos, negsuc, ◌+ℤ◌, ◌≤ℤ◌, +ℤ_parts}
use ais_store.Number.{Moment}
use ais_store.Params.{Params}
use ais_store.Interval.{validate_time_interval}

-- Minutes in milliseconds.
abbrev pub millis : ℤ → ℤ
millis (pos k) = pos (60000 * k)
millis (negsuc k) = negsuc (60000 * k + 59999)

-- What the moment library documents of `add` with minutes.
abbrev pub IsExact : Moment → Type 0
IsExact m = (date minutes : ℤ) → m.add_minutes date minutes ≡ date +ℤ millis minutes

abbrev pub IsOrdered : {W : Type 0} → Params W → Type 0
IsOrdered p = p.start_date ≤ℤ p.end_date

module _ {W : Type 0} (m : Moment) (exact : IsExact m) where
  -- Where the moment library adds minutes exactly, the start is not behind the end after a
  -- validation, whichever of the two was edited.
  pub validate_time_interval-IsOrdered :
      (start_updated : Bool) (p : Params W) → IsOrdered (validate_time_interval m start_updated p)
  unfolding validate_time_interval
  validate_time_interval-IsOrdered true p =
      ground (arith, exact p.start_date (pos 10), +ℤ_parts p.start_date (pos 600000))
  validate_time_interval-IsOrdered false p =
      ground (arith, exact p.end_date (negsuc 9), +ℤ_parts p.end_date (negsuc 599999))

module _ {W : Type 0} (m : Moment) where
  validate_time_interval-of_IsOrdered :
      (start_updated : Bool) (p : Params W)
      → IsOrdered p
      → validate_time_interval m start_updated p ≡ p
  unfolding validate_time_interval
  validate_time_interval-of_IsOrdered true p h = ground arith
  validate_time_interval-of_IsOrdered false p h = ground arith

module _ {W : Type 0} (m : Moment) (exact : IsExact m) where
  -- Where the moment library adds minutes exactly, a validation after another one changes nothing,
  -- whichever dates the two were called for.
  pub validate_time_interval_settles :
      (start_updated again : Bool) (p : Params W)
      → validate_time_interval m again (validate_time_interval m start_updated p)
        ≡ validate_time_interval m start_updated p
  validate_time_interval_settles start_updated again p =
      validate_time_interval-of_IsOrdered m again _
        (validate_time_interval-IsOrdered m exact start_updated p)
