-- ===== src/Position/Padding.antt =====
-- The loop of `formatLatitude` and `formatLongitude` that pads the minutes: when it ends.
use ais_store.Prelude.{
  true, false, ◌∙◌, sym, ap, ℕ, zero, suc, ◌-◌, none, some, ◌∷◌, ◌≡◌, refl, arith,
}
use ais_store.Text.{Text}
use ais_store.Position.{index_of, below_two, pad}

abbrev pub zeros : ℕ → Text → Text
zeros zero s = s
zeros (suc k) s = b'0' ∷ zeros k s

index_of-zero :
    (s : Text) (i : ℕ) → index_of b'.' s ≡ some i → index_of b'.' (b'0' ∷ s) ≡ some (suc i)
unfolding index_of
index_of-zero s i e = rw e refl

index_of-zero_none : (s : Text) → index_of b'.' s ≡ none → index_of b'.' (b'0' ∷ s) ≡ none
unfolding index_of
index_of-zero_none s e = rw e refl

pad_again :
    (k : ℕ) (s : Text) → below_two (index_of b'.' s) ≡ true → pad (suc k) s ≡ pad k (b'0' ∷ s)
unfolding pad
pad_again k s e = rw e refl

pad_done : (k : ℕ) (s : Text) → below_two (index_of b'.' s) ≡ false → pad (suc k) s ≡ some s
unfolding pad
pad_done k s e = rw e refl

-- With a point at the place `i` the loop ends after at most two rounds, in each number of rounds
-- above that, and has put as many zeros in front as the point lacks places to stand at 2.
pub pad_lem :
    (k i : ℕ) (s : Text)
    → index_of b'.' s ≡ some i
    → pad (suc (suc (suc k))) s ≡ some (zeros (2 - i) s)
pad_lem k zero s e =
    let e1 = index_of-zero s 0 e in
    let e2 = index_of-zero (b'0' ∷ s) 1 e1 in
    pad_again (suc (suc k)) s (rw e refl)
    ∙ pad_again (suc k) (b'0' ∷ s) (rw e1 refl)
    ∙ pad_done k (b'0' ∷ b'0' ∷ s) (rw e2 refl)
pad_lem k (suc zero) s e =
    pad_again (suc (suc k)) s (rw e refl)
    ∙ pad_done (suc k) (b'0' ∷ s) (rw (index_of-zero s 1 e) refl)
pad_lem k (suc (suc i)) s e =
    let none_lacking : 2 - suc (suc i) ≡ 0 = omega arith in
    pad_done (suc (suc k)) s (rw e (ground arith)) ∙ sym (ap (λ j. some (zeros j s)) none_lacking)

-- Without a point in the text the loop that pads the minutes is not over after any number of
-- rounds.
pub pad_forever : (k : ℕ) (s : Text) → index_of b'.' s ≡ none → pad k s ≡ none
unfolding pad
pad_forever zero s e = refl
pad_forever (suc k) s e =
    pad_again k s (rw e refl) ∙ pad_forever k (b'0' ∷ s) (index_of-zero_none s e)
