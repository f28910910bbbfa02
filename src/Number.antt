-- ===== src/Number.antt =====
-- What the downloader does with JavaScript numbers and with the moment library, which the
-- repository does not hold: the operations are arguments of the model. Dates are whole
-- milliseconds since the epoch.
pub mod Whole
use ais_store.Prelude.{ℕ, Bool, ◌≡◌}
use ais_store.Prelude.Int.{ℤ, pos, negsuc, ◌+ℤ◌}
use ais_store.Text.{Text}

-- A type `W` of numbers.
pub record Number (W : Type 0) : Type 0 where
  -- the truth value: false at 0 and NaN
  pub is_truthy : W → Bool
  -- `Math.max`, `Math.min`
  pub max : W → W → W
  pub min : W → W → W
  -- `number.toFixed(digits)`
  pub to_fixed : ℕ → W → Text
  -- `'' + number`
  pub to_text : W → Text

pub record Moment : Type 0 where
  -- `moment(date).add(minutes, 'minutes').valueOf()`
  pub add_minutes : ℤ → ℤ → ℤ
  -- `moment(date).startOf('hour').valueOf()`
  pub start_of_hour : ℤ → ℤ
  -- `moment(date).utc().format('YYYY-M-DTHH:mm:ss')`
  pub format_utc : ℤ → Text
