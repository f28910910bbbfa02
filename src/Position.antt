-- ===== src/Position.antt =====
-- The latitudes and longitudes of js/position.js, as texts of degrees and minutes. `none` of a
-- parser is its exception "Format exception"; `none` of `pad` is a loop that is not over yet.
pub mod Padding
pub mod Distance
pub mod Reading
pub mod RoundTrip
pub mod Accepted
pub mod Field
use ais_store.Prelude.{
  ℕ, zero, suc, ◌-◌, Bool, true, false, not, ◌&&◌, Option, none, some, List, [], ◌∷◌, ◌++◌, ◌==◌,
  leb, ltb, any, drop, if◌then◌else◌,
}
use ais_store.Text.{Text, split, trim}
use ais_store.Number.{Number}

-- Further operations on floating point numbers.
pub record Float (W : Type 0) : Type 0 where
  pub is_negative : W → Bool
  -- `x === 0`
  pub is_zero : W → Bool
  pub of_nat : ℕ → W
  pub plus : W → W → W
  pub minus : W → W → W
  pub times : W → W → W
  pub divide : W → W → W
  -- `x * -1`
  pub negate : W → W
  -- `Math.floor`
  pub floor : W → W
  -- `parseFloat(text)`, `parseInt(text, 10)`
  pub parse_float : Text → W
  pub parse_int : Text → W
  -- `number == text`
  pub equals_text : W → Text → Bool

-- `text.indexOf(c)` for one character; `none` is -1
unfoldable pub index_of : ℕ → Text → Option ℕ
index_of c [] = none
index_of c (x ∷ s) = elim (index_of c s) [
  | none ↦ if x == c then some 0 else none
  | some i ↦ if x == c then some 0 else some (suc i)
]

abbrev pub below_two : Option ℕ → Bool
below_two none = true
below_two (some i) = ltb i 2

-- The loop that pads the minutes, for a number of rounds.
unfoldable pub pad : ℕ → Text → Option Text
unfolding index_of
pad zero s = none
pad (suc k) s = let rest = pad k (b'0' ∷ s) in if below_two (index_of b'.' s) then rest else some s

-- What latitudes and longitudes differ in: the digits of the degrees, the number that shifts them
-- behind the point, and the letters of the two directions.
pub record Axis : Type 0 where
  pub digits : ℕ
  pub scale : ℕ
  pub positive : ℕ
  pub negative : ℕ

abbrev pub latitude : Axis
latitude = record { digits = 2; scale = 100; positive = b'N'; negative = b'S' }

abbrev pub longitude : Axis
longitude = record { digits = 3; scale = 1000; positive = b'E'; negative = b'W' }

-- The last character, and the text before it.
unfoldable pub last_char : Text → Text
last_char [] = []
last_char (c ∷ []) = c ∷ []
last_char (c ∷ d ∷ s) = last_char (d ∷ s)

unfoldable pub init : Text → Text
init [] = []
init (c ∷ []) = []
init (c ∷ d ∷ s) = c ∷ init (d ∷ s)

-- `splitFormattedPos`: degrees, minutes and direction
two_parts : Text → List Text → Option (Text × Text × Text)
two_parts direction (hours ∷ minutes ∷ []) = some (hours, minutes, direction)
two_parts direction _ = none

unfoldable pub split_formatted_pos : Text → Option (Text × Text × Text)
unfolding two_parts last_char init
split_formatted_pos s = two_parts (last_char s) (split b' ' (trim (init s)))

-- `parseString`
abbrev pub parse_string : Text → Option Text
parse_string s = elim (trim s) [ [] ↦ none | c ∷ t ↦ some (c ∷ t) ]

-- `toUpperCase`, as far as its result may be one ASCII letter: the only other characters with such
-- an upper case are the dotless i and the long s.
unfoldable pub upper : ℕ → ℕ
upper c =
    if leb b'a' c && leb c b'z'
    then c - 32
    else if c == 0x131
    then b'I'
    else if c == 0x17f
    then b'S'
    else c

-- Whether the direction, in upper case, is the letter.
abbrev pub is_letter : ℕ → Text → Bool
is_letter letter (c ∷ []) = upper c == letter
is_letter letter _ = false

abbrev joined : Option Text → Option Text → Option Text
joined none lon = none
joined (some lat) none = none
joined (some lat) (some lon) = some (lat ++ b' ' ∷ b' ' ∷ lon)

module _ {W : Type 0} ⦃n : Number W⦄ (f : Float W) where
  abbrev pub absolute : W → W
  absolute x = if f.is_negative x then f.negate x else x

  -- The degrees and the minutes of a number that is not negative.
  abbrev pub hours_text : Axis → W → Text
  hours_text axis x = drop 2 (n.to_fixed axis.digits (f.divide (f.floor x) (f.of_nat axis.scale)))

  abbrev pub minutes_text : W → Text
  minutes_text x = n.to_fixed 3 (f.times (f.minus x (f.floor x)) (f.of_nat 60))

  abbrev pub direction : Axis → W → ℕ
  direction axis x = if f.is_negative x then axis.negative else axis.positive

  -- `formatLatitude` and `formatLongitude`, with the rounds that the loop may take.
  unfoldable pub format : ℕ → Axis → W → Option Text
  unfolding pad
  format rounds axis x = elim (pad rounds (minutes_text (absolute x))) [
    | none ↦ none
    | some minutes ↦
        some (hours_text axis (absolute x) ++ b' ' ∷ (minutes ++ direction axis x ∷ []))
  ]

  -- `formatLonLat`, of a latitude and a longitude
  format_lon_lat : ℕ → W × W → Option Text
  unfolding format
  format_lon_lat rounds (lat, lon) =
      joined (format rounds latitude lat) (format rounds longitude lon)

  -- The end of `parseLat` and `parseLon`: the direction gives the sign.
  with_direction : Axis → W → Option Text → Option W
  with_direction axis value none = none
  with_direction axis value (some letter) =
      if not (is_letter axis.positive letter) && not (is_letter axis.negative letter)
      then none
      else if is_letter axis.negative letter
      then some (f.negate value)
      else some value

  -- `parseLat` and `parseLon`
  unfoldable pub parse_parts : Axis → Text × Text × Text → Option W
  unfolding with_direction upper
  parse_parts axis (hours, minutes, letter) =
      let value = f.plus (f.parse_int hours) (f.divide (f.parse_float minutes) (f.of_nat 60)) in
      with_direction axis value (parse_string letter)

  parse_split : Axis → Option (Text × Text × Text) → Option W
  unfolding parse_parts
  parse_split axis none = none
  parse_split axis (some parts) = parse_parts axis parts

  -- The text is a number and has no space inside.
  abbrev pub is_plain : Text → Bool
  is_plain value =
      not (any (λ c. c == b' ') (trim value)) && f.equals_text (f.parse_float value) value

  -- `parseLatitude` and `parseLongitude`
  unfoldable pub parse : Axis → Text → Option W
  unfolding parse_split split_formatted_pos
  parse axis value =
      if is_plain value
      then some (f.parse_float value)
      else parse_split axis (split_formatted_pos value)
