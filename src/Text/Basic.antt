-- ===== src/Text/Basic.antt =====
-- `String.prototype` and `Array.prototype.join` as far as the downloader calls them.
use Prim.Native.Char.{code}
use ais_store.Prelude.{
  ℕ, String, List, [], ◌∷◌, ◌++◌, ◌==◌, ◌≢◌, leb, Bool, true, false, ◌&&◌, ◌||◌, if◌then◌else◌, map,
  All, ◌↔◌, ◌≡◌, refl, arith,
}

abbrev pub Text : Type 0
Text = List ℕ

-- The text of a literal.
unfoldable pub codes : String → Text
codes String.[] = []
codes (String.◌∷◌ c s) = code c ∷ codes s

-- The truth value of a text: `''` is falsy.
abbrev pub non_empty : Text → Bool
non_empty [] = false
non_empty (c ∷ s) = true

-- The code point `c` does not occur.
abbrev pub IsFree : ℕ → Text → Type 0
IsFree c = All (λ x. x ≢ c)

-- `values.join(sep)`
unfoldable pub join : Text → List Text → Text
join sep [] = []
join sep (s ∷ []) = s
join sep (s ∷ t ∷ ts) = s ++ (sep ++ join sep (t ∷ ts))

-- `text.replace(/c/g, d)` for two characters
unfoldable pub replace : ℕ → ℕ → Text → Text
replace c d = map (λ x. if x == c then d else x)

abbrev pub push : ℕ → List Text → List Text
push x [] = (x ∷ []) ∷ []
push x (t ∷ ts) = (x ∷ t) ∷ ts

-- `text.split(c)` for one character
unfoldable pub split : ℕ → Text → List Text
split c [] = [] ∷ []
split c (x ∷ s) = let rest = split c s in if x == c then [] ∷ rest else push x rest

-- The white space and line terminators of ECMAScript.
unfoldable pub is_space : ℕ → Bool
is_space c =
    leb 9 c && leb c 13
    || c == 32
    || c == 0xa0
    || c == 0x1680
    || leb 0x2000 c && leb c 0x200a
    || c == 0x2028
    || c == 0x2029
    || c == 0x202f
    || c == 0x205f
    || c == 0x3000
    || c == 0xfeff

unfoldable pub trim_start : Text → Text
trim_start [] = []
trim_start (c ∷ s) = if is_space c then trim_start s else c ∷ s

-- A trailing space falls where nothing stays behind it.
abbrev pub end_step : ℕ → Text → Text
end_step c [] = if is_space c then [] else c ∷ []
end_step c (d ∷ rest) = c ∷ d ∷ rest

unfoldable pub trim_end : Text → Text
trim_end [] = []
trim_end (c ∷ s) = end_step c (trim_end s)

-- `text.trim()`
unfoldable pub trim : Text → Text
unfolding trim_start trim_end is_space
trim s = trim_end (trim_start s)

-- `s === t`
unfoldable pub text_eq : Text → Text → Bool
text_eq [] [] = true
text_eq (c ∷ s) (d ∷ t) = c == d && text_eq s t
text_eq _ _ = false

pub text_eq_iff : (s t : Text) → (text_eq s t ≡ true) ↔ (s ≡ t)
unfolding text_eq
text_eq_iff [] [] = (λ e. refl, λ e. refl)
text_eq_iff [] (d ∷ t) = (λ e. cc, λ e. cc)
text_eq_iff (c ∷ s) [] = (λ e. cc, λ e. cc)
text_eq_iff (c ∷ s) (d ∷ t) = ground (arith, text_eq_iff s t)
