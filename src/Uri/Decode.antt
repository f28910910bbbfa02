-- ===== src/Uri/Decode.antt =====
-- `decodeURIComponent` of ECMAScript at encoded texts, as a server reads a parameter: the escapes
-- give bytes, and the bytes code points.
use ais_store.Prelude.{
  false, zero, suc, ap₂, ℕ, ◌+◌, ◌-◌, ◌*◌, ◌/◌, ◌%◌, ◌<◌, List, [], ◌∷◌, ◌++◌, ◌==◌, true, ltb,
  if◌then◌else◌, ◌≡◌, refl, ◌∙◌, ap, arith, inl, inr, Bool-cases, ==_iff, all_below, of_all_below,
  All, append_assoc,
}
use ais_store.Text.{Text}
use ais_store.Uri.{
  is_unreserved, hex_digit, percent, utf8, percents, encode_char, encode_uri_component,
}

-- The value of an upper-case hexadecimal digit.
hex_value : ℕ → ℕ
hex_value c = if ltb c b'A' then c - b'0' else c - 55

-- The bytes of an encoded text, when so many digits of an escape are awaited, and the first of two
-- has the value `x`.
bytes : ℕ → ℕ → Text → List ℕ
bytes awaited x [] = []
bytes zero x (c ∷ s) =
    let rest = bytes (if c == b'%' then 2 else 0) 0 s in if c == b'%' then rest else c ∷ rest
bytes (suc zero) x (c ∷ s) = (x * 16 + hex_value c) ∷ bytes 0 0 s
bytes (suc (suc k)) x (c ∷ s) = bytes 1 (hex_value c) s

-- What the first byte of a code point announces: how many bytes follow, and its own share.
following : ℕ → ℕ
following b = if ltb b 0x80 then 0 else if ltb b 0xe0 then 1 else if ltb b 0xf0 then 2 else 3

share : ℕ → ℕ
share b =
    if ltb b 0x80
    then 0
    else if ltb b 0xe0
    then b % 0x20
    else if ltb b 0xf0
    then b % 0x10
    else b % 8

-- The code points of bytes in UTF-8, when so many bytes of one are awaited, and those before have
-- given `x`.
code_points : ℕ → ℕ → List ℕ → Text
code_points awaited x [] = []
code_points zero x (b ∷ bs) =
    let rest = code_points (following b) (share b) bs in if ltb b 0x80 then b ∷ rest else rest
code_points (suc zero) x (b ∷ bs) = (x * 64 + b % 64) ∷ code_points 0 0 bs
code_points (suc (suc k)) x (b ∷ bs) = code_points (suc k) (x * 64 + b % 64) bs

unfoldable pub decode_uri_component : Text → Text
unfolding bytes hex_value code_points following share
decode_uri_component s = code_points 0 0 (bytes 0 0 s)

hex_table : all_below 16 (λ n. hex_value (hex_digit n) == n) ≡ true
unfolding all_below hex_value hex_digit
hex_table = refl

hex_value-hex_digit : (n : ℕ) → n < 16 → hex_value (hex_digit n) ≡ n
hex_value-hex_digit n h =
    (==_iff _ _).0 (of_all_below 16 (λ m. hex_value (hex_digit m) == m) n hex_table h)

bytes-percent : (b : ℕ) (s : Text) → b < 256 → bytes 0 0 (percent b ++ s) ≡ b ∷ bytes 0 0 s
unfolding bytes percent
bytes-percent b s h =
    ap (λ c. c ∷ bytes 0 0 s)
      (ap₂ (λ x y. x * 16 + y) (hex_value-hex_digit (b / 16 % 16) (omega arith))
          (hex_value-hex_digit (b % 16) (omega arith))
        ∙ omega arith)

bytes-percents :
    (bs : List ℕ) (s : Text)
    → All (λ b. b < 256) bs
    → bytes 0 0 (percents bs ++ s) ≡ bs ++ bytes 0 0 s
unfolding percents
bytes-percents [] s h = refl
bytes-percents (b ∷ bs) s (p, h) =
    ap (bytes 0 0) (append_assoc (percent b) (percents bs) s)
    ∙ bytes-percent b (percents bs ++ s) p
    ∙ ap (b ∷◌) (bytes-percents bs s h)

-- The code points of Unicode.
abbrev pub IsCodePoint : ℕ → Type 0
IsCodePoint c = c < 0x110000

utf8-small : (c : ℕ) → IsCodePoint c → All (λ b. b < 256) (utf8 c)
unfolding utf8
utf8-small c h = ground arith

code_points-lead :
    (a k x : ℕ) (bs : List ℕ)
    → ltb a 0x80 ≡ false
    → following a ≡ k
    → share a ≡ x
    → code_points 0 0 (a ∷ bs) ≡ code_points k x bs
unfolding code_points
code_points-lead a k x bs h e e' = rw h (ap₂ (λ k x. code_points k x bs) e e')

code_points-one :
    (c : ℕ) (bs : List ℕ) → ltb c 0x80 ≡ true → code_points 0 0 (c ∷ bs) ≡ c ∷ code_points 0 0 bs
unfolding code_points following share
code_points-one c bs h = rw h refl

bytes-plain :
    (c : ℕ) (s : Text) → is_unreserved c ≡ true → bytes 0 0 (c ∷ s) ≡ utf8 c ++ bytes 0 0 s
unfolding bytes utf8 is_unreserved
bytes-plain c s e =
    let small : ltb c 0x80 ≡ true = ground arith in
    let plain : (c == b'%') ≡ false = ground arith in rw (small, plain) refl

code_points-two :
    (c : ℕ) (bs : List ℕ)
    → ltb c 0x80 ≡ false
    → ltb c 0x800 ≡ true
    → code_points 0 0 ((0xc0 + c / 64) ∷ (0x80 + c % 64) ∷ bs) ≡ c ∷ code_points 0 0 bs
unfolding code_points following share
code_points-two c bs h k =
    code_points-lead (0xc0 + c / 64) 1 (c / 64) ((128 + c % 64) ∷ bs) (ground arith) (ground arith)
      (ground arith)
    ∙ ap (λ d. d ∷ code_points 0 0 bs) {x = (c / 64 * 64 + (128 + c % 64) % 64)} {y = c}
        (omega arith)

code_points-three :
    (c : ℕ) (bs : List ℕ)
    → ltb c 0x800 ≡ false
    → ltb c 0x10000 ≡ true
    → code_points 0 0 ((0xe0 + c / 4096) ∷ (0x80 + c / 64 % 64) ∷ (0x80 + c % 64) ∷ bs)
      ≡ c ∷ code_points 0 0 bs
unfolding code_points following share
code_points-three c bs h k =
    code_points-lead (0xe0 + c / 4096) 2 (c / 4096) ((128 + c / 64 % 64) ∷ (128 + c % 64) ∷ bs)
      (ground arith) (ground arith) (ground arith)
    ∙ ap (λ d. d ∷ code_points 0 0 bs)
        {x = ((c / 4096 * 64 + (128 + c / 64 % 64) % 64) * 64 + (128 + c % 64) % 64)} {y = c}
        (omega arith)

code_points-four :
    (c : ℕ) (bs : List ℕ)
    → IsCodePoint c
    → ltb c 0x10000 ≡ false
    → code_points 0 0
        ((0xf0 + c / 262144) ∷ (0x80 + c / 4096 % 64) ∷ (0x80 + c / 64 % 64) ∷ (0x80 + c % 64) ∷ bs)
      ≡ c ∷ code_points 0 0 bs
unfolding code_points following share
code_points-four c bs h k =
    code_points-lead (0xf0 + c / 262144) 3 (c / 262144)
      ((128 + c / 4096 % 64) ∷ (128 + c / 64 % 64) ∷ (128 + c % 64) ∷ bs) (ground arith)
      (ground arith) (ground arith)
    ∙ ap (λ d. d ∷ code_points 0 0 bs)
        {x = (((c / 262144 * 64 + (128 + c / 4096 % 64) % 64) * 64 + (128 + c / 64 % 64) % 64) * 64
          + (128 + c % 64) % 64)}
        {y = c} (omega arith)

code_points-utf8 :
    (c : ℕ) (bs : List ℕ) → IsCodePoint c → code_points 0 0 (utf8 c ++ bs) ≡ c ∷ code_points 0 0 bs
unfolding utf8
code_points-utf8 c bs h = elim (Bool-cases (ltb c 0x80)) [
  | inl e ↦ rw e (code_points-one c bs e)
  | inr e ↦ rw e (elim (Bool-cases (ltb c 0x800)) [
    | inl e' ↦ rw e' (code_points-two c bs e e')
    | inr e' ↦ rw e' (elim (Bool-cases (ltb c 0x10000)) [
      | inl e'' ↦ rw e'' (code_points-three c bs e' e'')
      | inr e'' ↦ rw e'' (code_points-four c bs h e'')
    ])
  ])
]

-- An unreserved character is its own byte.
encode_char-percents :
    (c : ℕ) (s : Text) → IsCodePoint c → bytes 0 0 (encode_char c ++ s) ≡ utf8 c ++ bytes 0 0 s
unfolding encode_char
encode_char-percents c s h = elim (Bool-cases (is_unreserved c)) [
  | inl e ↦ rw e (bytes-plain c s e)
  | inr e ↦ rw e (bytes-percents (utf8 c) s (utf8-small c h))
]

decode_encoded :
    (s : Text) → All IsCodePoint s → code_points 0 0 (bytes 0 0 (encode_uri_component s)) ≡ s
unfolding encode_uri_component code_points bytes
decode_encoded [] h = refl
decode_encoded (c ∷ s) (p, h) =
    ap (code_points 0 0) (encode_char-percents c (encode_uri_component s) p)
    ∙ code_points-utf8 c (bytes 0 0 (encode_uri_component s)) p
    ∙ ap (c ∷◌) (decode_encoded s h)

-- What was encoded is decoded again.
pub decode_uri_component-encode_uri_component :
    (s : Text) → All IsCodePoint s → decode_uri_component (encode_uri_component s) ≡ s
unfolding decode_uri_component
decode_uri_component-encode_uri_component s h = decode_encoded s h
