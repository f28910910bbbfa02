-- ===== src/Tests/Degrees.antt =====
-- Numbers for the tests of positions: fixed-point numbers, in thousandths of a minute.
use ais_store.Prelude.{
  length, length-append, ℕ, zero, suc, ◌+◌, ◌-◌, ◌*◌, ◌/◌, ◌%◌, ◌≤◌, ◌≢◌, Bool, true, false, not,
  [], ◌∷◌, ◌++◌, ◌==◌, ◌≡◌, refl, arith, drop, if◌then◌else◌, All-append, foldl,
}
use ais_store.Prelude.Int.{ℤ, pos, negsuc, ◌+ℤ◌, ltb_ℤ}
use ais_store.Text.{Text, is_space, split, text_eq}
use ais_store.Number.{Number}
use ais_store.Number.Whole.{decimal, decimal-IsSolid, decimal-cons, digit-solid}
use ais_store.Position.{Float}
use ais_store.Position.Reading.{IsSolid}
use ais_store.Position.RoundTrip.{PrintsSolid}

abbrev units : ℕ
units = 60000

abbrev magnitude : ℤ → ℕ
magnitude (pos k) = k
magnitude (negsuc k) = suc k

abbrev is_below_zero : ℤ → Bool
is_below_zero (pos k) = false
is_below_zero (negsuc k) = true

abbrev with_sign : Bool → ℕ → ℤ
with_sign true (suc k) = negsuc k
with_sign _ k = pos k

abbrev negated : ℤ → ℤ
negated x = with_sign (not (is_below_zero x)) (magnitude x)

-- The last `k` digits.
abbrev last_digits : ℕ → ℕ → Text
last_digits zero n = []
last_digits (suc k) n = last_digits k (n / 10) ++ (b'0' + n % 10) ∷ []

abbrev power : ℕ → ℕ
power zero = 1
power (suc k) = 10 * power k

abbrev behind : ℕ → ℕ → Text
behind zero m = []
behind (suc k) m = b'.' ∷ last_digits (suc k) (m % units * power (suc k) / units)

abbrev sign : ℤ → Text
sign x = if is_below_zero x then b'-' ∷ [] else []

abbrev fixed : ℕ → ℤ → Text
fixed k x = sign x ++ (decimal (magnitude x / units) ++ behind k (magnitude x))

instance abbrev pub degrees : Number ℤ
degrees = record {
  is_truthy = λ x. not (magnitude x == 0);
  max = λ x y. if ltb_ℤ x y then y else x;
  min = λ x y. if ltb_ℤ x y then x else y;
  to_fixed = fixed;
  to_text = fixed 5;
}

abbrev whole_of : Text → ℕ
whole_of = foldl (λ n c. 10 * n + (c - b'0')) 0

-- A text of digits with three of them behind the point, or with no point.
abbrev read_parts : Text → ℤ
read_parts s = elim (split b'.' s) [
  | [] ↦ pos 0
  | w ∷ [] ↦ pos (whole_of w * units)
  | w ∷ r ∷ _ ↦ pos (whole_of w * units + whole_of r * 60)
]

abbrev pub fixed_points : Float ℤ
fixed_points = record {
  is_negative = is_below_zero;
  is_zero = λ x. magnitude x == 0;
  of_nat = λ k. pos (k * units);
  plus = ◌+ℤ◌;
  minus = λ x y. x +ℤ negated y;
  times = λ x y. with_sign (is_below_zero x) (magnitude x * magnitude y / units);
  divide = λ x y. with_sign (is_below_zero x) (magnitude x * units / magnitude y);
  negate = negated;
  floor = λ x. with_sign (is_below_zero x) (magnitude x / units * units);
  parse_float = read_parts;
  parse_int = read_parts;
  equals_text = λ x s. text_eq (fixed 0 x) s;
}

last_digits-IsSolid : (k n : ℕ) → IsSolid (last_digits k n)
last_digits-IsSolid zero n = tt
last_digits-IsSolid (suc k) n =
    All-append (λ c. is_space c ≡ false) (last_digits k (n / 10)) _ (last_digits-IsSolid k (n / 10))
      (digit-solid (n % 10) (omega arith), tt)

behind-IsSolid : (k m : ℕ) → IsSolid (behind k m)
unfolding is_space
behind-IsSolid zero m = tt
behind-IsSolid (suc k) m = (refl, last_digits-IsSolid (suc k) _)

sign-IsSolid : (x : ℤ) → IsSolid (sign x)
unfolding is_space
sign-IsSolid (pos k) = tt
sign-IsSolid (negsuc k) = (refl, tt)

drop-long : (s : Text) → 3 ≤ length s → drop 2 s ≢ []
drop-long [] h = absurd (omega arith)
drop-long (a ∷ []) h = absurd (omega arith)
drop-long (a ∷ b ∷ []) h = absurd (omega arith)
drop-long (a ∷ b ∷ c ∷ s) h = λ e. cc

length-positive : (s : Text) → s ≢ [] → 1 ≤ length s
length-positive [] h = absurd (h refl)
length-positive (c ∷ s) h = omega arith

-- At least one digit, a point, and at least one digit.
behind-long : (k m : ℕ) → 1 ≤ k → 2 ≤ length (behind k m)
behind-long zero m h = absurd (omega arith)
behind-long (suc k) m h =
    let shown = m % units * power (suc k) / units in
    omega (arith, length-append (last_digits k (shown / 10)) ((b'0' + shown % 10) ∷ []))

fixed-long : (k : ℕ) (x : ℤ) → 1 ≤ k → drop 2 (fixed k x) ≢ []
fixed-long k x h =
    let digits = decimal (magnitude x / units) in
    drop-long (fixed k x) (
      omega (
        arith,
        length-append (sign x) (digits ++ behind k (magnitude x)),
        length-append digits (behind k (magnitude x)),
        length-positive digits (decimal-cons _),
        behind-long k (magnitude x) h,
      ))

pub degrees-PrintsSolid : PrintsSolid ℤ
degrees-PrintsSolid = record {
  solid = λ k x.
      All-append (λ c. is_space c ≡ false) (sign x) _ (sign-IsSolid x)
        (All-append (λ c. is_space c ≡ false) (decimal (magnitude x / units)) _ (decimal-IsSolid _)
          (behind-IsSolid k (magnitude x)));
  long = fixed-long;
}
