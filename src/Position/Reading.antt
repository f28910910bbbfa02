-- ===== src/Position/Reading.antt =====
-- `splitFormattedPos` and the parsers of js/position.js at texts of degrees and minutes.
use ais_store.Prelude.{
  sym, ap₂, ℕ, zero, suc, true, false, some, [], ◌∷◌, ◌++◌, ◌≡◌, ◌≢◌, refl, ◌∙◌, ap, arith, All,
  any, ◌==◌, append_assoc,
}
use ais_store.Text.{Text, IsFree, is_space, split, trim, join}
use ais_store.Text.Trim.{trim_of_ends}
use ais_store.Text.Split.{split-join}
use ais_store.Number.{Number}
use ais_store.Position.{
  Float, Axis, init, last_char, split_formatted_pos, two_parts, parse_parts, parse_split, parse,
}
use ais_store.Position.Padding.{zeros}

-- No white space occurs.
abbrev pub IsSolid : Text → Type 0
IsSolid = All (λ c. is_space c ≡ false)

init-append : (s : Text) (c : ℕ) → init (s ++ c ∷ []) ≡ s
unfolding init
init-append [] c = refl
init-append (x ∷ []) c = refl
init-append (x ∷ y ∷ s) c = ap (x ∷◌) (init-append (y ∷ s) c)

last_char-append : (s : Text) (c : ℕ) → last_char (s ++ c ∷ []) ≡ c ∷ []
unfolding last_char
last_char-append [] c = refl
last_char-append (x ∷ []) c = refl
last_char-append (x ∷ y ∷ s) c = last_char-append (y ∷ s) c

IsFree-of_IsSolid : (s : Text) → IsSolid s → IsFree b' ' s
unfolding is_space
IsFree-of_IsSolid [] h = tt
IsFree-of_IsSolid (c ∷ s) (p, h) = ((λ e. ground arith), IsFree-of_IsSolid s h)

any-space : (s t : Text) → any (λ c. c == b' ') (s ++ b' ' ∷ t) ≡ true
any-space [] t = refl
any-space (c ∷ s) t = ground (arith, any-space s t)

pub zeros-IsSolid : (k : ℕ) (s : Text) → IsSolid s → IsSolid (zeros k s)
unfolding is_space
zeros-IsSolid zero s h = h
zeros-IsSolid (suc k) s h = (refl, zeros-IsSolid k s h)

-- Two parts with a space between them and a letter behind.
abbrev pub text_of : Text → Text → ℕ → Text
text_of hours minutes letter = hours ++ b' ' ∷ (minutes ++ letter ∷ [])

split_formatted_pos-append :
    (s : Text) (c : ℕ)
    → split_formatted_pos (s ++ c ∷ []) ≡ two_parts (c ∷ []) (split b' ' (trim s))
unfolding split_formatted_pos
split_formatted_pos-append s c =
    ap₂ (λ last first. two_parts last (split b' ' (trim first))) (last_char-append s c)
      (init-append s c)

module _ (c d : ℕ) (hours minutes : Text) (hs : IsSolid (c ∷ hours))
    (ms : IsSolid (d ∷ minutes)) where
  abbrev parts : Text
  parts = (c ∷ hours) ++ b' ' ∷ d ∷ minutes

  trim-parts : trim parts ≡ parts
  trim-parts =
      let e = append_assoc hours (b' ' ∷ []) (d ∷ minutes) in
      ap (λ s. trim (c ∷ s)) (sym e)
      ∙ trim_of_ends c (hours ++ b' ' ∷ []) d minutes hs.0 ms
      ∙ ap (c ∷◌) e

  split-parts : split b' ' parts ≡ (c ∷ hours) ∷ (d ∷ minutes) ∷ []
  unfolding join
  split-parts =
      split-join b' ' (c ∷ hours) ((d ∷ minutes) ∷ [])
        (IsFree-of_IsSolid (c ∷ hours) hs, (IsFree-of_IsSolid (d ∷ minutes) ms, tt))

  text_of-parts : (letter : ℕ) → text_of (c ∷ hours) (d ∷ minutes) letter ≡ parts ++ letter ∷ []
  text_of-parts letter = sym (append_assoc (c ∷ hours) (b' ' ∷ d ∷ minutes) (letter ∷ []))

  split_formatted_pos-text_of :
      (letter : ℕ)
      → split_formatted_pos (text_of (c ∷ hours) (d ∷ minutes) letter)
        ≡ some (c ∷ hours, d ∷ minutes, letter ∷ [])
  unfolding two_parts
  split_formatted_pos-text_of letter =
      ap split_formatted_pos (text_of-parts letter)
      ∙ split_formatted_pos-append parts letter
      ∙ ap (λ s. two_parts (letter ∷ []) (split b' ' s)) trim-parts
      ∙ ap (two_parts (letter ∷ [])) split-parts

  -- Such a text has a space inside, so it is not read as one number.
  any-trim-text_of :
      (letter : ℕ)
      → is_space letter ≡ false
      → any (λ x. x == b' ') (trim (text_of (c ∷ hours) (d ∷ minutes) letter)) ≡ true
  any-trim-text_of letter ls =
      let e = append_assoc (c ∷ hours) (b' ' ∷ d ∷ minutes) (letter ∷ []) in
      ap (λ s. any (λ x. x == b' ') (trim s)) (text_of-parts letter)
      ∙ ap (any (λ x. x == b' '))
          (trim_of_ends c (hours ++ b' ' ∷ d ∷ minutes) letter [] hs.0 (ls, tt))
      ∙ ap (any (λ x. x == b' ')) e
      ∙ any-space (c ∷ hours) ((d ∷ minutes) ++ letter ∷ [])

module _ {W : Type 0} ⦃n : Number W⦄ (f : Float W) where
  -- The value that degrees and minutes stand for.
  abbrev pub value_of : Text → Text → W
  value_of hours minutes =
      f.plus (f.parse_int hours) (f.divide (f.parse_float minutes) (f.of_nat 60))

  pub parse-text_of :
      (axis : Axis) (hours minutes : Text) (letter : ℕ)
      → hours ≢ []
      → minutes ≢ []
      → IsSolid hours
      → IsSolid minutes
      → is_space letter ≡ false
      → parse f axis (text_of hours minutes letter)
        ≡ parse_parts f axis (hours, minutes, letter ∷ [])
  unfolding parse parse_split
  parse-text_of axis [] minutes letter h m hs ms ls = absurd (h refl)
  parse-text_of axis (c ∷ hours) [] letter h m hs ms ls = absurd (m refl)
  parse-text_of axis (c ∷ hours) (d ∷ minutes) letter h m hs ms ls =
      rw (any-trim-text_of c d hours minutes hs ms letter ls)
        (ap (parse_split f axis) (split_formatted_pos-text_of c d hours minutes hs ms letter))
