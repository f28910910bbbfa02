-- ===== src/Uri.antt =====
-- `encodeURIComponent` of ECMAScript, at well-formed texts.
pub mod Safe
pub mod Decode
use ais_store.Prelude.{
  ℕ, ◌+◌, ◌/◌, ◌%◌, List, [], ◌∷◌, ◌++◌, ◌==◌, Bool, ◌||◌, ◌&&◌, leb, ltb, if◌then◌else◌,
}
use ais_store.Text.{Text}

-- The characters that stay: letters, digits and `- _ . ! ~ * ' ( )`.
unfoldable pub is_unreserved : ℕ → Bool
is_unreserved c =
    leb b'a' c && leb c b'z'
    || leb b'A' c && leb c b'Z'
    || leb b'0' c && leb c b'9'
    || c == b'-'
    || c == b'_'
    || c == b'.'
    || c == b'!'
    || c == b'~'
    || c == b'*'
    || c == 0x27
    || c == b'('
    || c == b')'

-- An upper-case hexadecimal digit.
hex_digit : ℕ → ℕ
hex_digit n = if ltb n 10 then b'0' + n else 55 + n

-- One byte as `%XY`.
percent : ℕ → Text
unfolding hex_digit
percent b = b'%' ∷ hex_digit (b / 16 % 16) ∷ hex_digit (b % 16) ∷ []

-- The bytes of a code point in UTF-8.
utf8 : ℕ → List ℕ
utf8 c =
    if ltb c 0x80
    then c ∷ []
    else if ltb c 0x800
    then (0xc0 + c / 64) ∷ (0x80 + c % 64) ∷ []
    else if ltb c 0x10000
    then (0xe0 + c / 4096) ∷ (0x80 + c / 64 % 64) ∷ (0x80 + c % 64) ∷ []
    else (0xf0 + c / 262144) ∷ (0x80 + c / 4096 % 64) ∷ (0x80 + c / 64 % 64) ∷ (0x80 + c % 64) ∷ []

percents : List ℕ → Text
percents [] = []
percents (b ∷ bs) = percent b ++ percents bs

encode_char : ℕ → Text
unfolding is_unreserved percent percents utf8
encode_char c = if is_unreserved c then c ∷ [] else percents (utf8 c)

unfoldable pub encode_uri_component : Text → Text
unfolding encode_char
encode_uri_component [] = []
encode_uri_component (c ∷ s) = encode_char c ++ encode_uri_component s
