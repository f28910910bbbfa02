-- ===== src/Number/Whole.antt =====
-- Numbers and dates for the tests: whole numbers with decimal digits, and dates that add minutes
-- exactly and print as their milliseconds.
use ais_store.Prelude.{
  Bool, sym, ◌<◌, ◌≡◌, false, true, All, all_below, of_all_below, ℕ, zero, suc, ◌+◌, ◌/◌, ◌%◌, ◌*◌,
  ◌≢◌, refl, inl, inr, not, [], ◌∷◌, ◌++◌, leb, ltb, ◌==◌, if◌then◌else◌, arith, All-append,
  Bool-cases,
}
use ais_store.Prelude.Int.{pos, ◌+ℤ◌, pos_part}
use ais_store.Text.{Text, IsFree, is_space}
use ais_store.Number.{Number, Moment}
use ais_store.Area.Bounds.{IsOrdered}
use ais_store.Interval.Ordered.{millis, IsExact}

digits : ℕ → ℕ → Text
digits zero n = []
digits (suc fuel) n =
    let rest = digits fuel (n / 10) ++ (b'0' + n % 10) ∷ [] in
    if ltb n 10 then (b'0' + n) ∷ [] else rest

-- Enough fuel: a number has no more digits than its successor counts.
unfoldable pub decimal : ℕ → Text
unfolding digits
decimal n = digits (suc n) n

abbrev zeros : ℕ → Text
zeros zero = []
zeros (suc k) = b'0' ∷ zeros k

abbrev with_point : ℕ → Text → Text
with_point zero s = s
with_point (suc k) s = s ++ b'.' ∷ zeros (suc k)

instance abbrev pub whole : Number ℕ
whole = record {
  is_truthy = λ x. not (x == 0);
  max = λ x y. if leb x y then y else x;
  min = λ x y. if leb x y then x else y;
  to_fixed = λ k x. with_point k (decimal x);
  to_text = decimal;
}

abbrev pub whole_dates : Moment
whole_dates = record {
  add_minutes = λ date minutes. date +ℤ millis minutes;
  start_of_hour = λ date. pos (pos_part date / 3600000 * 3600000);
  format_utc = λ date. decimal (pos_part date);
}

pub whole_dates-IsExact : IsExact whole_dates
whole_dates-IsExact date minutes = refl

pub whole-IsOrdered : IsOrdered ℕ
whole-IsOrdered = record {
  le = leb;
  le_refl = λ x. ground arith;
  le_trans = λ x y z p q. ground arith;
  max_left = λ x y. ground arith;
  max_right = λ x y. ground arith;
  max_choice = λ x y. ground arith;
  min_left = λ x y. ground arith;
  min_right = λ x y. ground arith;
  min_choice = λ x y. ground arith;
}

digit_table : all_below 10 (λ d. not (is_space (b'0' + d))) ≡ true
unfolding all_below is_space
digit_table = refl

not-true : (b : Bool) → not b ≡ true → b ≡ false
not-true true e = sym e
not-true false e = refl

pub digit-solid : (d : ℕ) → d < 10 → is_space (b'0' + d) ≡ false
digit-solid d h =
    not-true (is_space (b'0' + d))
      (of_all_below 10 (λ x. not (is_space (b'0' + x))) d digit_table h)

append-cons : (t : Text) (c : ℕ) (s : Text) → t ++ c ∷ s ≢ []
append-cons [] c s = λ h. cc
append-cons (x ∷ t) c s = λ h. cc

pub decimal-cons : (n : ℕ) → decimal n ≢ []
unfolding decimal digits
decimal-cons n = elim (Bool-cases (ltb n 10)) [
  | inl e ↦ rw e (λ h. cc)
  | inr e ↦ rw e (append-cons (digits n (n / 10)) _ [])
]

module _ (P : ℕ → Type 0) (holds : (d : ℕ) → d < 10 → P (b'0' + d)) where
  digits-All : (fuel n : ℕ) → All P (digits fuel n)
  unfolding digits
  digits-All zero n = tt
  digits-All (suc fuel) n = elim (Bool-cases (ltb n 10)) [
    | inl e ↦ rw e (holds n (ground arith), tt)
    | inr e ↦ rw e (
        All-append P (digits fuel (n / 10)) _ (digits-All fuel (n / 10))
          (holds (n % 10) (omega arith), tt))
  ]

pub decimal-IsFree : (n : ℕ) → IsFree b'&' (decimal n)
unfolding decimal
decimal-IsFree n = digits-All (λ c. c ≢ b'&') (λ d h. omega arith) (suc n) n

pub decimal-IsSolid : (n : ℕ) → All (λ c. is_space c ≡ false) (decimal n)
unfolding decimal
decimal-IsSolid n = digits-All (λ c. is_space c ≡ false) digit-solid (suc n) n

zeros-IsFree : (k : ℕ) → IsFree b'&' (zeros k)
zeros-IsFree zero = tt
zeros-IsFree (suc k) = (omega arith, zeros-IsFree k)

pub to_fixed-IsFree : (k n : ℕ) → IsFree b'&' (whole.to_fixed k n)
to_fixed-IsFree zero n = decimal-IsFree n
to_fixed-IsFree (suc k) n =
    All-append (λ x. x ≢ b'&') (decimal n) _ (decimal-IsFree n) (omega arith, zeros-IsFree (suc k))
