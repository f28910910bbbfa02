-- ===== src/Text/Split.antt =====
-- Splitting at one character, and joining with it.
use ais_store.Prelude.{
  ap₂, sym, ==_iff, ℕ, List, [], ◌∷◌, ◌++◌, ◌≡◌, refl, ◌∙◌, ◌≢◌, ◌==◌, ap, arith, inl, inr,
  Bool-cases, All, All-append,
}
use ais_store.Text.Basic.{Text, IsFree, join, push, split, replace}

module _ (c : ℕ) where
  split-of_IsFree : (s : Text) → IsFree c s → split c s ≡ s ∷ []
  unfolding split
  split-of_IsFree [] h = refl
  split-of_IsFree (x ∷ s) (p, h) = ground (arith, split-of_IsFree s h)

  split-append : (s t : Text) → IsFree c s → split c (s ++ c ∷ t) ≡ s ∷ split c t
  unfolding split
  split-append [] t h = ground arith
  split-append (x ∷ s) t (p, h) = ground (arith, split-append s t h)

  -- Splitting takes a joined list of texts apart again, where the separator is in none of them.
  pub split-join :
      (s : Text) (ts : List Text)
      → All (IsFree c) (s ∷ ts)
      → split c (join (c ∷ []) (s ∷ ts)) ≡ s ∷ ts
  unfolding join
  split-join s [] (h, _) = split-of_IsFree s h
  split-join s (t ∷ ts) (h, hs) =
      split-append s (join (c ∷ []) (t ∷ ts)) h ∙ ap (s ∷◌) (split-join t ts hs)

  join-push : (x : ℕ) (ts : List Text) → join (c ∷ []) (push x ts) ≡ x ∷ join (c ∷ []) ts
  unfolding join
  join-push x [] = refl
  join-push x (t ∷ []) = refl
  join-push x (t ∷ u ∷ ts) = refl

  split-cons : (s : Text) → (t : Text) × (ts : List Text) × (split c s ≡ t ∷ ts)
  unfolding split
  split-cons [] = ([], [], refl)
  split-cons (x ∷ s) = elim (Bool-cases (x == c)) [
    | inl e ↦ ([], split c s, rw e refl)
    | inr e ↦ let (t, ts, h) = split-cons s in (x ∷ t, ts, rw e (ap (push x) h))
  ]

  join-nil :
      (parts : List Text) (t : Text) (ts : List Text)
      → parts ≡ t ∷ ts
      → join (c ∷ []) ([] ∷ parts) ≡ c ∷ join (c ∷ []) parts
  unfolding join
  join-nil parts t ts h = rw h refl

  -- Joining the parts of a text gives it back.
  pub join-split : (s : Text) → join (c ∷ []) (split c s) ≡ s
  unfolding split join
  join-split [] = refl
  join-split (x ∷ s) = elim (Bool-cases (x == c)) [
    | inl e ↦
        let (t, ts, h) = split-cons s in
        rw e (join-nil (split c s) t ts h ∙ ap₂ ◌∷◌ (sym ((==_iff x c).0 e)) (join-split s))
    | inr e ↦ rw e (join-push x (split c s) ∙ ap (x ∷◌) (join-split s))
  ]

  push-IsFree : (x : ℕ) (ts : List Text) → x ≢ c → All (IsFree c) ts → All (IsFree c) (push x ts)
  push-IsFree x [] h k = ((h, tt), tt)
  push-IsFree x (t ∷ ts) h (k, ks) = ((h, k), ks)

  -- No part of a split holds the separator.
  pub split-IsFree : (s : Text) → All (IsFree c) (split c s)
  unfolding split
  split-IsFree [] = (tt, tt)
  split-IsFree (x ∷ s) = elim (Bool-cases (x == c)) [
    | inl e ↦ rw e (tt, split-IsFree s)
    | inr e ↦ rw e (push-IsFree x (split c s) (ground arith) (split-IsFree s))
  ]

-- What holds of every character of a text holds of those of its parts.
module _ (P : ℕ → Type 0) where
  push-All : (x : ℕ) (ts : List Text) → P x → All (All P) ts → All (All P) (push x ts)
  push-All x [] p h = ((p, tt), tt)
  push-All x (t ∷ ts) p (h, hs) = ((p, h), hs)

  pub split-All : (c : ℕ) (s : Text) → All P s → All (All P) (split c s)
  unfolding split
  split-All c [] h = (tt, tt)
  split-All c (x ∷ s) (p, h) = elim (Bool-cases (x == c)) [
    | inl e ↦ rw e (tt, split-All c s h)
    | inr e ↦ rw e (push-All x (split c s) p (split-All c s h))
  ]

  pub replace-All : (c d : ℕ) (s : Text) → P d → All P s → All P (replace c d s)
  unfolding replace
  replace-All c d [] q h = tt
  replace-All c d (x ∷ s) q (p, h) = elim (Bool-cases (x == c)) [
    | inl e ↦ rw e (q, replace-All c d s q h)
    | inr e ↦ rw e (p, replace-All c d s q h)
  ]

  pub join-All : (sep : Text) (ts : List Text) → All P sep → All (All P) ts → All P (join sep ts)
  unfolding join
  join-All sep [] k h = tt
  join-All sep (s ∷ []) k (h, _) = h
  join-All sep (s ∷ t ∷ ts) k (h, hs) =
      All-append P s _ h (All-append P sep _ k (join-All sep (t ∷ ts) k hs))
