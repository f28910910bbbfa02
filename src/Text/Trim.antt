-- ===== src/Text/Trim.antt =====
-- The characters of a trimmed text.
use ais_store.Prelude.{ℕ, false, ◌≡◌, refl, ◌++◌, [], ◌∷◌, All, inl, inr, Bool-cases}
use ais_store.Text.Basic.{Text, is_space, trim_start, trim_end, end_step, trim}

module _ (P : ℕ → Type 0) where
  trim_start-All : (s : Text) → All P s → All P (trim_start s)
  unfolding trim_start
  trim_start-All [] h = tt
  trim_start-All (c ∷ s) (p, h) = elim (Bool-cases (is_space c)) [
    | inl e ↦ rw e (trim_start-All s h)
    | inr e ↦ rw e (p, h)
  ]

  trim_end_step : (c : ℕ) (rest : Text) → P c → All P rest → All P (end_step c rest)
  trim_end_step c [] p h = elim (Bool-cases (is_space c)) [ inl e ↦ rw e tt | inr e ↦ rw e (p, tt) ]
  trim_end_step c (d ∷ r) p h = (p, h)

  trim_end-All : (s : Text) → All P s → All P (trim_end s)
  unfolding trim_end
  trim_end-All [] h = tt
  trim_end-All (c ∷ s) (p, h) = trim_end_step c (trim_end s) p (trim_end-All s h)

  pub trim-All : (s : Text) → All P s → All P (trim s)
  unfolding trim
  trim-All s h = trim_end-All (trim_start s) (trim_start-All s h)

-- A text that begins and ends with other characters than white space stays as it is.
end_step-cons : (c : ℕ) (s : Text) (d : ℕ) (t : Text) → end_step c (s ++ d ∷ t) ≡ c ∷ s ++ d ∷ t
end_step-cons c [] d t = refl
end_step-cons c (x ∷ s) d t = refl

trim_end-of_All :
    (d : ℕ) (t : Text) → All (λ c. is_space c ≡ false) (d ∷ t) → trim_end (d ∷ t) ≡ d ∷ t
unfolding trim_end
trim_end-of_All d [] (p, _) = rw p refl
trim_end-of_All d (c ∷ t) (p, h) = rw (trim_end-of_All c t h) refl

trim_end-append :
    (s : Text) (d : ℕ) (t : Text)
    → All (λ c. is_space c ≡ false) (d ∷ t)
    → trim_end (s ++ d ∷ t) ≡ s ++ d ∷ t
unfolding trim_end
trim_end-append [] d t h = trim_end-of_All d t h
trim_end-append (c ∷ s) d t h = rw (trim_end-append s d t h) (end_step-cons c s d t)

pub trim_of_ends :
    (c : ℕ) (s : Text) (d : ℕ) (t : Text)
    → is_space c ≡ false
    → All (λ x. is_space x ≡ false) (d ∷ t)
    → trim (c ∷ s ++ d ∷ t) ≡ c ∷ s ++ d ∷ t
unfolding trim trim_start
trim_of_ends c s d t p h = rw p (trim_end-append (c ∷ s) d t h)

pub trim_one : (c : ℕ) → is_space c ≡ false → trim (c ∷ []) ≡ c ∷ []
unfolding trim trim_start trim_end
trim_one c p = rw p (rw p refl)
