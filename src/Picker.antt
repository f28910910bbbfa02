-- ===== src/Picker.antt =====
-- The directive `psDatetimePicker` of js/app-directives.js: a date of the page and the widget that
-- picks it. The widget is an argument, and so is the printing of a date; the watch on the date sees
-- a value once.
pub mod Sessions
use ais_store.Prelude.{ℕ, suc, Bool, true, false, Option, none, some, [], if◌then◌else◌}
use ais_store.Prelude.Int.{ℤ, pos, eq_ℤ}
use ais_store.Text.{Text}

-- The widget: dates are milliseconds, and `none` is no date.
pub record Widget : Type 0 where
  -- `picker.date(value)`, from the date that the widget has to the one that it has afterwards, or
  -- `none` where it throws
  pub set : Option ℤ → Option ℤ → Option (Option ℤ)
  -- whether it then fires "dp.change"
  pub fires : Option ℤ → Option ℤ → Bool
  -- `moment(date).format(format)`
  pub print : ℤ → Text

pub record Binding : Type 0 where
  -- `scope.date`
  pub date : Option ℤ
  -- `picker.date()`
  pub picker_date : Option ℤ
  -- the text of the element
  pub text : Text
  -- what the watch saw last
  pub seen : Option (Option ℤ)
  -- the exceptions that were thrown
  pub thrown : ℕ

-- The handler of "dp.change". Its test is always true: `picker.date` is a function, which is truthy
-- and differs from every date, and the widget has no `unset`. `picker.date()` is null where there is
-- no date, and null has no `valueOf`: `none` where it throws.
unfoldable pub dp_change : Binding → Option Binding
dp_change b = elim b.picker_date [ none ↦ none | some d ↦ some (record b { date = some d }) ]

-- An exception, which ends the call that has led to it.
abbrev pub throw : Binding → Binding
throw b = record b { thrown = suc b.thrown }

abbrev pub catch : Binding → Option Binding → Binding
catch b none = throw b
catch b (some c) = c

-- `newValue` where it is truthy.
abbrev pub truthy_date : Option ℤ → Option ℤ
truthy_date none = none
truthy_date (some d) = if eq_ℤ d (pos 0) then none else some d

abbrev pub same_date : Option ℤ → Option ℤ → Bool
same_date none none = true
same_date (some a) (some b) = eq_ℤ a b
same_date _ _ = false

abbrev pub date_seen : Option (Option ℤ) → Option ℤ → Bool
date_seen none d = false
date_seen (some e) d = same_date e d

module _ (widget : Widget) where
  abbrev pub shown_text : Option ℤ → Text
  shown_text none = []
  shown_text (some d) = widget.print d

  -- The widget has a new date, and may say so.
  widget_set : Option ℤ → Binding → Option Binding
  unfolding dp_change
  widget_set new b =
      let c = record b { picker_date = new } in
      if widget.fires b.picker_date new then dp_change c else some c

  -- The handler of the watch: the text is set unless `picker.date` has thrown.
  unfoldable pub date_changed : Binding → Binding
  unfolding widget_set
  date_changed b = elim (widget.set b.picker_date (truthy_date b.date)) [
    | none ↦ throw b
    | some new ↦ elim (widget_set new b) [
      | none ↦ throw (record b { picker_date = new })
      | some c ↦ record c { text = shown_text (truthy_date b.date) }
    ]
  ]

  -- The watch on the date.
  unfoldable pub watch : Binding → Binding
  unfolding date_changed
  watch b = if date_seen b.seen b.date then b else date_changed (record b { seen = some b.date })
