-- ===== src/Uri/Safe.antt =====
-- What characters an encoded text is made of.
use ais_store.Prelude.{
  ℕ, ◌/◌, ◌%◌, ◌<◌, ◌≡◌, refl, inl, inr, List, [], ◌∷◌, true, ◌||◌, ◌==◌, Bool-cases, arith, All,
  All-append,
}
use mathlib.Core.Bool.{false≢true, or-true}
use ais_store.Text.{Text, codes, IsFree}
use ais_store.Uri.{
  is_unreserved, hex_digit, percent, utf8, percents, encode_char, encode_uri_component,
}

-- A character that may stand in a component of a URL.
abbrev pub IsUriChar : ℕ → Type 0
IsUriChar c = (is_unreserved c || c == b'%') ≡ true

hex_digit-is_unreserved : (n : ℕ) → n < 16 → is_unreserved (hex_digit n) ≡ true
unfolding hex_digit is_unreserved
hex_digit-is_unreserved n h = ground arith

percent-IsUriChar : (b : ℕ) → All IsUriChar (percent b)
unfolding percent
percent-IsUriChar b = (
  or-true _,
  (
    rw (hex_digit-is_unreserved (b / 16 % 16) (omega arith)),
    (rw (hex_digit-is_unreserved (b % 16) (omega arith)), tt),
  ),
)

percents-IsUriChar : (bs : List ℕ) → All IsUriChar (percents bs)
unfolding percents
percents-IsUriChar [] = tt
percents-IsUriChar (b ∷ bs) =
    All-append IsUriChar (percent b) _ (percent-IsUriChar b) (percents-IsUriChar bs)

encode_char-IsUriChar : (c : ℕ) → All IsUriChar (encode_char c)
unfolding encode_char
encode_char-IsUriChar c = elim (Bool-cases (is_unreserved c)) [
  | inl e ↦ rw e (rw e refl, tt)
  | inr e ↦ rw e (percents-IsUriChar (utf8 c))
]

-- An encoded text is made of unreserved characters and `%` alone.
pub encode_uri_component-IsUriChar : (s : Text) → All IsUriChar (encode_uri_component s)
unfolding encode_uri_component
encode_uri_component-IsUriChar [] = tt
encode_uri_component-IsUriChar (c ∷ s) =
    All-append IsUriChar (encode_char c) _ (encode_char-IsUriChar c)
      (encode_uri_component-IsUriChar s)

-- A text of unreserved characters is its own encoding.
pub encode_uri_component-of_is_unreserved :
    (s : Text) → All (λ c. is_unreserved c ≡ true) s → encode_uri_component s ≡ s
unfolding encode_uri_component encode_char
encode_uri_component-of_is_unreserved [] h = refl
encode_uri_component-of_is_unreserved (c ∷ s) (p, h) =
    rw (p, encode_uri_component-of_is_unreserved s h)

-- `&` is no such character.
pub IsFree-of_IsUriChar : (s : Text) → All IsUriChar s → IsFree b'&' s
unfolding is_unreserved
IsFree-of_IsUriChar [] h = tt
IsFree-of_IsUriChar (c ∷ s) (p, h) = (λ e. false≢true (rw e at p), IsFree-of_IsUriChar s h)

encode_tests : encode_uri_component (codes "A é&€") ≡ codes "A%20%C3%A9%26%E2%82%AC"
unfolding encode_uri_component codes
encode_tests = refl
