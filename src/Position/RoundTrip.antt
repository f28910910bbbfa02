-- ===== src/Position/RoundTrip.antt =====
-- The parsers of js/position.js at what its formatters print.
use ais_store.Prelude.{
  ap, ℕ, zero, suc, ◌-◌, ◌≤◌, Bool, true, false, some, [], ◌∷◌, ◌≡◌, ◌≢◌, refl, ◌∙◌, arith, drop,
  if◌then◌else◌, ◌==◌,
}
use ais_store.Text.{Text, is_space}
use ais_store.Text.Trim.{trim_one}
use ais_store.Number.{Number}
use ais_store.Position.{
  Float, Axis, latitude, longitude, index_of, upper, absolute, hours_text, minutes_text, direction,
  format, parse_parts, parse_string, with_direction, parse,
}
use ais_store.Position.Padding.{zeros, pad_lem}
use ais_store.Position.Reading.{IsSolid, zeros-IsSolid, text_of, value_of, parse-text_of}

-- The letters of an axis are two different capital letters, and its degrees have digits.
pub record IsDirected (axis : Axis) : Type 0 where
  pub digits : 1 ≤ axis.digits
  pub positive_solid : is_space axis.positive ≡ false
  pub negative_solid : is_space axis.negative ≡ false
  pub positive_upper : upper axis.positive ≡ axis.positive
  pub negative_upper : upper axis.negative ≡ axis.negative
  pub distinct : (axis.positive == axis.negative) ≡ false

pub latitude-IsDirected : IsDirected latitude
unfolding upper is_space
latitude-IsDirected = record {
  digits = omega arith;
  positive_solid = refl;
  negative_solid = refl;
  positive_upper = refl;
  negative_upper = refl;
  distinct = refl;
}

pub longitude-IsDirected : IsDirected longitude
unfolding upper is_space
longitude-IsDirected = record {
  digits = omega arith;
  positive_solid = refl;
  negative_solid = refl;
  positive_upper = refl;
  negative_upper = refl;
  distinct = refl;
}

-- What `toFixed` documents: it prints no white space, and with a digit behind the point it prints at
-- least three characters.
pub record PrintsSolid (W : Type 0) ⦃n : Number W⦄ : Type 0 where
  pub solid : (k : ℕ) (x : W) → IsSolid (n.to_fixed k x)
  pub long : (k : ℕ) (x : W) → 1 ≤ k → drop 2 (n.to_fixed k x) ≢ []

drop-IsSolid : (k : ℕ) (s : Text) → IsSolid s → IsSolid (drop k s)
drop-IsSolid zero s h = h
drop-IsSolid (suc k) [] h = tt
drop-IsSolid (suc k) (c ∷ s) (p, h) = drop-IsSolid k s h

zeros-of_index : (k i : ℕ) (s : Text) → index_of b'.' s ≡ some i → zeros k s ≢ []
unfolding index_of
zeros-of_index zero i [] e = λ h. cc
zeros-of_index zero i (c ∷ s) e = λ h. cc
zeros-of_index (suc k) i s e = λ h. cc

parse_string-one : (c : ℕ) → is_space c ≡ false → parse_string (c ∷ []) ≡ some (c ∷ [])
parse_string-one c h = rw (trim_one c h, parse_string) refl

module _ {W : Type 0} ⦃n : Number W⦄ (f : Float W) where
  abbrev pub signed : Bool → W → W
  signed negative x = if negative then f.negate x else x

  -- The letter that was printed is read as its direction.
  with_direction-letter :
      (axis : Axis) (directed : IsDirected axis) (negative : Bool) (value : W)
      → with_direction f axis value
          (some ((if negative then axis.negative else axis.positive) ∷ []))
        ≡ some (signed negative value)
  unfolding with_direction
  with_direction-letter axis directed true value =
      ground (arith, directed.negative_upper, directed.distinct)
  with_direction-letter axis directed false value =
      ground (arith, directed.positive_upper, directed.distinct)

  direction-solid :
      (axis : Axis) (directed : IsDirected axis) (negative : Bool)
      → is_space (if negative then axis.negative else axis.positive) ≡ false
  direction-solid axis directed true = directed.negative_solid
  direction-solid axis directed false = directed.positive_solid

  parse_parts-letter :
      (axis : Axis) (directed : IsDirected axis) (negative : Bool) (hours minutes : Text)
      → parse_parts f axis
          (hours, minutes, (if negative then axis.negative else axis.positive) ∷ [])
        ≡ some (signed negative (value_of f hours minutes))
  unfolding parse_parts
  parse_parts-letter axis directed negative hours minutes =
      ap (with_direction f axis (value_of f hours minutes))
        (parse_string-one _ (direction-solid axis directed negative))
      ∙ with_direction-letter axis directed negative (value_of f hours minutes)

  format_lem :
      (axis : Axis) (k i : ℕ) (x : W)
      → index_of b'.' (minutes_text f (absolute f x)) ≡ some i
      → format f (suc (suc (suc k))) axis x
        ≡ some (
            text_of
              (hours_text f axis (absolute f x))
              (zeros (2 - i) (minutes_text f (absolute f x)))
              (direction f axis x))
  unfolding format
  format_lem axis k i x e = rw (pad_lem k i (minutes_text f (absolute f x)) e, format) refl

  -- Where numbers print without white space, and at least three characters with digits behind the
  -- point, the letters of the axis are two different capital letters, and the printed minutes have
  -- a point, the loop that pads the minutes is over after three tests of its condition, and the
  -- text that comes out is parsed: to the printed degrees plus a sixtieth of the printed minutes,
  -- with the sign of the number that was formatted.
  pub parse-format :
      (prints : PrintsSolid W) (axis : Axis) (directed : IsDirected axis) (k i : ℕ) (x : W)
      → index_of b'.' (minutes_text f (absolute f x)) ≡ some i
      → (text : Text) × (format f (suc (suc (suc k))) axis x ≡ some text)
        × (parse f axis text
            ≡ some (
                signed (f.is_negative x) (
                  value_of f
                    (hours_text f axis (absolute f x))
                    (zeros (2 - i) (minutes_text f (absolute f x))))))
  parse-format prints axis directed k i x e =
      let hours = hours_text f axis (absolute f x) in
      let minutes = zeros (2 - i) (minutes_text f (absolute f x)) in
      (
        text_of hours minutes (direction f axis x),
        format_lem axis k i x e,
        parse-text_of f axis hours minutes (direction f axis x)
              (prints.long axis.digits _ directed.digits) (zeros-of_index (2 - i) i _ e)
              (drop-IsSolid 2 _ (prints.solid axis.digits _))
              (zeros-IsSolid (2 - i) _ (prints.solid 3 _))
              (direction-solid axis directed (f.is_negative x))
            ∙ parse_parts-letter axis directed (f.is_negative x) hours minutes,
      )
