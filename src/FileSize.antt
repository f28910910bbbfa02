-- ===== src/FileSize.antt =====
-- The filter `bytes` of js/app-filter.js, which prints a file size with a unit. Its numbers are
-- JavaScript's, whose operations are an argument.
pub mod Units
use ais_store.Prelude.{
  ℕ, zero, suc, Bool, true, false, not, ◌||◌, Option, none, some, List, [], ◌∷◌, ◌++◌,
  if◌then◌else◌, String, get_elem?,
}
use ais_store.Prelude.Int.{ℤ, pos, negsuc}
use ais_store.Text.{Text, codes}

-- What the filter does with numbers.
pub record Sizes (W : Type 0) : Type 0 where
  -- a whole number, as of the literal 1024 and of an exponent
  pub of_nat : ℕ → W
  pub of_int : ℤ → W
  -- `x == 0`, `isNaN(parseFloat(x))` and `isFinite(x)`
  pub is_zero : W → Bool
  pub is_nan : W → Bool
  pub is_finite : W → Bool
  -- `Math.log(x)`, `x / y`, `Math.pow(x, y)` and `Math.floor(x)`
  pub log : W → W
  pub divide : W → W → W
  pub pow : W → W → W
  pub floor : W → ℤ
  -- `x.toFixed(precision)`
  pub to_fixed : W → ℕ → Text

abbrev pub units : List String
units = "bytes" ∷ "kB" ∷ "MB" ∷ "GB" ∷ "TB" ∷ "PB" ∷ []

-- `'' + units[number]`; `none` is `undefined`
unfoldable pub unit_text : ℤ → Text
unit_text (negsuc k) = codes "undefined"
unit_text (pos k) = elim (get_elem? units k) [ none ↦ codes "undefined" | some unit ↦ codes unit ]

abbrev pub precision_of : Option ℕ → ℕ
precision_of none = 1
precision_of (some digits) = digits

module _ {W : Type 0} (sizes : Sizes W) where
  -- `number`
  unfoldable pub number_of : W → ℤ
  number_of x = sizes.floor (sizes.divide (sizes.log x) (sizes.log (sizes.of_nat 1024)))

  -- The text of the last line. The floor of the number, which is whole, is the number.
  unfoldable pub with_unit : W → ℤ → ℕ → Text
  unfolding unit_text
  with_unit x number precision =
      let scale = sizes.pow (sizes.of_nat 1024) (sizes.of_int number) in
      sizes.to_fixed (sizes.divide x scale) precision ++ b' ' ∷ unit_text number

  -- The filter, with an optional precision.
  unfoldable pub bytes : W → Option ℕ → Text
  unfolding number_of with_unit
  bytes x precision =
      if sizes.is_zero x
      then codes "0 bytes"
      else if sizes.is_nan x || not (sizes.is_finite x)
      then codes "-"
      else with_unit x (number_of x) (precision_of precision)
