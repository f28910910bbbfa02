-- ===== src/FileSize/Units.antt =====
-- The unit that `bytes` of js/app-filter.js chooses for a whole number of bytes.

use ais_store.Prelude.{
  get_elem?, ℕ, zero, suc, ◌*◌, ◌≤◌, ◌<◌, true, false, Option, some, ◌≡◌, arith, String,
}
use ais_store.Prelude.Int.{pos}
use ais_store.Text.{Text, codes}
use ais_store.FileSize.{Sizes, units, unit_text, precision_of}

-- The powers of a base.
abbrev pub power : ℕ → ℕ → ℕ
power base zero = 1
power base (suc i) = base * power base i

-- The scale of each unit, from the smallest on.
abbrev pub scale : ℕ → ℕ
scale i = power 1024 i

-- What JavaScript's numbers do at a positive whole number: it is a finite number, and to every base
-- the floored quotient of the logarithms is the exponent of the greatest power that is not above it.
pub record IsExact {W : Type 0} (sizes : Sizes W) (n : ℕ) : Type 0 where
  pub positive : sizes.is_zero (sizes.of_nat n) ≡ false
  pub a_number : sizes.is_nan (sizes.of_nat n) ≡ false
  pub finite : sizes.is_finite (sizes.of_nat n) ≡ true
  pub logarithm :
      (base i : ℕ)
      → 2 ≤ base
      → power base i ≤ n
      → n < power base (suc i)
      → sizes.floor (sizes.divide (sizes.log (sizes.of_nat n)) (sizes.log (sizes.of_nat base)))
        ≡ pos i

pub scale_pos : (i : ℕ) → 1 ≤ scale i
scale_pos zero = omega arith
scale_pos (suc i) = omega (arith, scale_pos i)

-- The first six levels have units, and the others begin where those end.
abbrev HasUnit : ℕ → ℕ → Type 0
HasUnit n i =
    (unit : String) × (get_elem? units i ≡ some unit)
    × (unit_text (pos i) ≡ codes unit)
    × (n < scale 6)

module _ {W : Type 0} (sizes : Sizes W) (n : ℕ) (precision : Option ℕ) where
  -- The quotient of the size by a power of 1024, printed.
  abbrev pub quotient : ℕ → Text
  quotient i =
      let divisor = sizes.pow (sizes.of_nat 1024) (sizes.of_int (pos i)) in
      sizes.to_fixed (sizes.divide (sizes.of_nat n) divisor) (precision_of precision)
