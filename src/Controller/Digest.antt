-- ===== src/Controller/Digest.antt =====
-- The three watches of `AisQueryCtrl` in js/app-ctrl.js: on the start, on the end and on the output
-- format. Angular calls the handler of a watch where the watched value is not the one that it saw
-- last, and goes on until none is; which watch comes first is left open here.
pub mod Bound
pub mod Passes
use ais_store.Prelude.{
  ℕ, zero, suc, Bool, true, false, not, ◌&&◌, ◌||◌, Option, none, some, ◌==◌, ◌≡◌, ◌▷◌,
  if◌then◌else◌,
}
use ais_store.Prelude.Int.{ℤ, eq_ℤ}
use ais_store.Text.{Text, text_eq}
use ais_store.Number.{Number}
use ais_store.Params.{Params}
use ais_store.Controller.{Page, World, update_url, validate_interval}

-- The page, with the values that the watches saw last; `none` before the first call.
pub record Watched (W : Type 0) : Type 0 where
  pub page : Page W
  pub seen_start : Option ℤ
  pub seen_end : Option ℤ
  pub seen_format : Option Text

abbrev pub is_seen {ℓ} : {A : Type ℓ} → (A → A → Bool) → Option A → A → Bool
is_seen eq none a = false
is_seen eq (some b) a = eq b a

module _ {W : Type 0} where
  abbrev pub start_seen : Watched W → Bool
  start_seen s = is_seen eq_ℤ s.seen_start s.page.params.start_date

  abbrev pub end_seen : Watched W → Bool
  end_seen s = is_seen eq_ℤ s.seen_end s.page.params.end_date

  abbrev pub format_seen : Watched W → Bool
  format_seen s = is_seen text_eq s.seen_format s.page.params.output_format

  -- No watch has anything left to do.
  abbrev pub is_quiet : Watched W → Bool
  is_quiet s = start_seen s && end_seen s && format_seen s

module _ {W : Type 0} ⦃n : Number W⦄ (w : World W) where
  -- The watches take the value, then their handlers run.
  unfoldable pub start_changed : Watched W → Watched W
  start_changed s = record s {
    page = validate_interval w true s.page;
    seen_start = some s.page.params.start_date;
  }

  unfoldable pub end_changed : Watched W → Watched W
  end_changed s = record s {
    page = validate_interval w false s.page;
    seen_end = some s.page.params.end_date;
  }

  unfoldable pub format_changed : Watched W → Watched W
  format_changed s = record s {
    page = update_url w s.page;
    seen_format = some s.page.params.output_format;
  }

  -- One call of a handler, by a watch that has not seen the present value.
  pub data Call (s : Watched W) : Watched W → Type 0 where
    by_start : start_seen s ≡ false → Call s (start_changed s)
    by_end : end_seen s ≡ false → Call s (end_changed s)
    by_format : format_seen s ≡ false → Call s (format_changed s)

  -- So many calls, one after the other.
  pub data Calls (s : Watched W) : ℕ → Watched W → Type 0 where
    done : Calls s zero s
    more : {k : ℕ} {t u : Watched W} → Calls s k t → Call t u → Calls s (suc k) u

  unfoldable pub start_watch : Watched W → Watched W
  unfolding start_changed
  start_watch s = if start_seen s then s else start_changed s

  unfoldable pub end_watch : Watched W → Watched W
  unfolding end_changed
  end_watch s = if end_seen s then s else end_changed s

  unfoldable pub format_watch : Watched W → Watched W
  unfolding format_changed
  format_watch s = if format_seen s then s else format_changed s

  -- One pass over the watches, in the order in which they were made.
  unfoldable pub pass : Watched W → Watched W
  unfolding start_watch end_watch format_watch
  pass s = s ▷ start_watch ▷ end_watch ▷ format_watch
