-- ===== src/Position/Field.antt =====
-- `positionDirective` of js/app-directives.js: an input field for a latitude or a longitude. As in
-- the code, the formatter and the parser are arguments; `none` of the parser is its exception.
use ais_store.Prelude.{
  Bool, true, false, ◌||◌, Option, none, some, List, [], ◌∷◌, ◌≡◌, refl, foldl, last_or,
  if◌then◌else◌,
}
use ais_store.Text.{Text}
use ais_store.Number.{Number}
use ais_store.Position.{Float}

-- What the directive reads and sets of its `ngModel`: `none` is `undefined` or `null`.
pub record Field (W : Type 0) : Type 0 where
  pub model_value : Option W
  pub view_value : Option Text
  pub valid : Bool

module _ {W : Type 0} ⦃n : Number W⦄ (f : Float W) (formatter1 : W → Text)
    (parser : Text → Option W) where
  -- `formatter`
  unfoldable pub formatter : Option W → Option Text
  formatter none = none
  formatter (some x) = if n.is_truthy x || f.is_zero x then some (formatter1 x) else none

  -- The function that it adds to `$formatters`: the model has a new value.
  unfoldable pub model_changed : Option W → Field W → Field W
  unfolding formatter
  model_changed none d = record d { model_value = none; view_value = none }
  model_changed (some x) d = record d {
    model_value = some x;
    view_value = if n.is_truthy x then formatter (some x) else none;
  }

  -- The function that it adds to `$parsers`: the user has edited the text.
  parsed : Option W → Field W → Field W
  parsed (some x) d = record d { model_value = some x; valid = true }
  parsed none d = record d { model_value = none; valid = false }

  unfoldable pub edited : Field W → Text → Field W
  unfolding parsed
  edited d text = parsed (parser text) (record d { view_value = some text })

  -- The handler of "change".
  unfoldable pub changed : Field W → Field W
  unfolding formatter
  changed d = record d { view_value = formatter d.model_value }

  abbrev pub is_some : Option W → Bool
  is_some none = false
  is_some (some x) = true

  edited_lem :
      (d : Field W) (text : Text)
      → edited d text ≡ record {
        model_value = parser text;
        view_value = some text;
        valid = is_some (parser text);
      }
  unfolding edited parsed
  edited_lem d text =
      elim (parser text)
        as (λ o.
          parsed o (record d { view_value = some text })
          ≡ record { model_value = o; view_value = some text; valid = is_some o }) [
            | none ↦ refl
            | some x ↦ refl
          ]

  -- Whatever a field held and however often it was edited, when the edits are over the model has what
  -- the parser makes of the last text, the field is valid exactly if the parser takes that text, and
  -- it shows that value formatted, or nothing.
  pub changed-edits :
      (d : Field W) (text : Text) (texts : List Text)
      → changed (foldl edited d (text ∷ texts)) ≡ record {
        model_value = parser (last_or text texts);
        view_value = formatter (parser (last_or text texts));
        valid = is_some (parser (last_or text texts));
      }
  unfolding changed
  changed-edits d text [] = rw (edited_lem d text) refl
  changed-edits d text (t ∷ texts) = changed-edits (edited d text) t texts
