-- ===== src/Controller/Digest/Bound.antt =====
-- How often the handlers of the watches are called before no watch has anything left to do.
use ais_store.Prelude.{
  Option, ap, Bool-cases, inl, inr, ℕ, zero, suc, ◌+◌, ◌≤◌, ◌<◌, Bool, true, false, some, ◌≡◌, refl,
  arith,
}
use ais_store.Prelude.Int.{ℤ, pos, negsuc, ltb_ℤ, eq_ℤ, eq_ℤ_refl, +ℤ_parts}
use ais_store.Text.{Text, text_eq, text_eq_iff}
use ais_store.Number.{Number, Moment}
use ais_store.Params.{Params}
use ais_store.Interval.{validate_time_interval}
use ais_store.Interval.Ordered.{IsExact}
use ais_store.Controller.{World, update_url, validate_interval}
use ais_store.Controller.Digest.{
  Watched, is_seen, start_changed, end_changed, format_changed, Call, by_start, by_end, by_format,
  Calls, done, more,
}

abbrev pub count : Bool → ℕ
count true = 1
count false = 0

abbrev pub missing : Bool → ℕ
missing true = 0
missing false = 1

-- The dates are out of order.
abbrev pub crossed : ℤ → ℤ → Bool
crossed start_date end_date = ltb_ℤ end_date start_date

-- The watches that have something to do, and one more while the dates are out of order.
weigh : Option ℤ → Option ℤ → Option Text → ℤ → ℤ → Text → ℕ
weigh seen_start seen_end seen_format start_date end_date format =
    missing (is_seen eq_ℤ seen_start start_date)
    + missing (is_seen eq_ℤ seen_end end_date)
    + missing (is_seen text_eq seen_format format)
    + count (crossed start_date end_date)

missing-le : (b : Bool) → missing b ≤ 1
missing-le true = omega arith
missing-le false = omega arith

count-le : (b : Bool) → count b ≤ 1
count-le true = omega arith
count-le false = omega arith

module _ (ss se : Option ℤ) (sf : Option Text) (a b : ℤ) (f : Text) where
  weigh-start :
      (b' : ℤ)
      → crossed a b' ≡ false
      → (crossed a b ≡ false → b' ≡ b)
      → is_seen eq_ℤ ss a ≡ false
      → weigh (some a) se sf a b' f < weigh ss se sf a b f
  unfolding weigh
  weigh-start b' ordered keeps h = elim (Bool-cases (crossed a b)) [
    | inl c ↦ omega (
      arith,
      ap count ordered,
      ap count c,
      ap missing h,
      ap missing (eq_ℤ_refl a),
      missing-le (is_seen eq_ℤ se b'),
    )
    | inr c ↦ rw (keeps c) (omega (arith, ap missing h, ap missing (eq_ℤ_refl a)))
  ]

  weigh-end :
      (a' : ℤ)
      → crossed a' b ≡ false
      → (crossed a b ≡ false → a' ≡ a)
      → is_seen eq_ℤ se b ≡ false
      → weigh ss (some b) sf a' b f < weigh ss se sf a b f
  unfolding weigh
  weigh-end a' ordered keeps h = elim (Bool-cases (crossed a b)) [
    | inl c ↦ omega (
      arith,
      ap count ordered,
      ap count c,
      ap missing h,
      ap missing (eq_ℤ_refl b),
      missing-le (is_seen eq_ℤ ss a'),
    )
    | inr c ↦ rw (keeps c) (omega (arith, ap missing h, ap missing (eq_ℤ_refl b)))
  ]

  weigh-format : is_seen text_eq sf f ≡ false → weigh ss se (some f) a b f < weigh ss se sf a b f
  unfolding weigh
  weigh-format h = omega (arith, ap missing h, ap missing ((text_eq_iff f f).1 refl))

  weigh-le : weigh ss se sf a b f ≤ 4
  unfolding weigh
  weigh-le =
      let at_most_one : count (crossed a b) ≤ 1 = count-le (crossed a b) in
      omega (
        arith,
        missing-le (is_seen eq_ℤ ss a),
        missing-le (is_seen eq_ℤ se b),
        missing-le (is_seen text_eq sf f),
        at_most_one,
      )

-- The measure of a page: `weigh` at its dates and its format.
abbrev left : {W : Type 0} → Watched W → ℕ
left s =
    weigh s.seen_start s.seen_end s.seen_format s.page.params.start_date s.page.params.end_date
      s.page.params.output_format

module _ {W : Type 0} (m : Moment) (exact : IsExact m) (p : Params W) where
  -- A validation puts the dates in order, and changes the other date only where they are not.
  pub validated_start :
      let q = validate_time_interval m true p in
      (q ≡ record p { end_date = q.end_date })
      × (crossed p.start_date q.end_date ≡ false)
      × (crossed p.start_date p.end_date ≡ false → q.end_date ≡ p.end_date)
  unfolding validate_time_interval
  validated_start = ground (arith, exact p.start_date (pos 10), +ℤ_parts p.start_date (pos 600000))

  pub validated_end :
      let q = validate_time_interval m false p in
      (q ≡ record p { start_date = q.start_date })
      × (crossed q.start_date p.end_date ≡ false)
      × (crossed p.start_date p.end_date ≡ false → q.start_date ≡ p.start_date)
  unfolding validate_time_interval
  validated_end = ground (arith, exact p.end_date (negsuc 9), +ℤ_parts p.end_date (negsuc 599999))

module _ {W : Type 0} ⦃n : Number W⦄ (w : World W) (exact : IsExact w.moment) where
  Call-left : {s t : Watched W} → Call w s t → left t < left s
  unfolding start_changed end_changed format_changed validate_interval update_url
  Call-left {s} (by_start h) =
      let (same, ordered, keeps) = validated_start w.moment exact s.page.params in
      rw same (weigh-start _ _ _ _ _ _ _ ordered keeps h)
  Call-left {s} (by_end h) =
      let (same, ordered, keeps) = validated_end w.moment exact s.page.params in
      rw same (weigh-end _ _ _ _ _ _ _ ordered keeps h)
  Call-left (by_format h) = weigh-format _ _ _ _ _ _ h

  Calls-left : {s t : Watched W} (k : ℕ) → Calls w s k t → left t + k ≤ left s
  Calls-left zero done = omega arith
  Calls-left {t} (suc k) (more {t = t'} calls c) =
      omega (arith, Calls-left {t = t'} k calls, Call-left c)

  -- Where the moment library adds minutes exactly, the watches call their handlers at most four
  -- times in a row, from whatever page and in whatever order.
  pub Calls-le : {s t : Watched W} (k : ℕ) → Calls w s k t → k ≤ 4
  Calls-le {s} k calls = omega (
    arith,
    Calls-left k calls,
    weigh-le s.seen_start s.seen_end s.seen_format s.page.params.start_date s.page.params.end_date
        s.page.params.output_format,
  )
