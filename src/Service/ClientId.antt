-- ===== src/Service/ClientId.antt =====
-- `clientId` of js/app-service.js: the form of the id, and how often it is drawn.
use Prim.Native.Nat.{bit_and, bit_or}
use ais_store.Prelude.{
  ℕ, zero, suc, List, map, sym, ◌<◌, Bool, true, ◌&&◌, ◌||◌, none, some, [], ◌∷◌, ◌==◌, leb,
  if◌then◌else◌, ◌≡◌, refl, inl, inr, Bool-cases, Option-cases, ◌+◌, ==_iff, all_below,
  of_all_below,
}
use ais_store.Text.{Text, codes}
use ais_store.Service.{
  placeholders, Storage, Browser, hex_digit, template, fill, truthy_text, client_id,
}

-- A lower-case hexadecimal digit, and one that carries the variant bits 10.
abbrev pub is_hex : ℕ → Bool
is_hex c = leb b'0' c && leb c b'9' || leb b'a' c && leb c b'f'

abbrev pub is_variant : ℕ → Bool
is_variant c = c == b'8' || c == b'9' || c == b'a' || c == b'b'

-- Each character passes the test at its place, and there are as many.
abbrev pub Matches : List (ℕ → Bool) → Text → Type 0
Matches [] [] = Unit
Matches [] (c ∷ s) = ⊥
Matches (test ∷ tests) [] = ⊥
Matches (test ∷ tests) (c ∷ s) = (test c ≡ true) × Matches tests s

abbrev pub times : ℕ → (ℕ → Bool) → List (ℕ → Bool) → List (ℕ → Bool)
times zero test rest = rest
times (suc k) test rest = test ∷ times k test rest

abbrev pub is_char : ℕ → ℕ → Bool
is_char a c = c == a

-- The form of a version 4 UUID: five groups of 8, 4, 4, 4 and 12 hexadecimal digits with dashes
-- between them, of which the third begins with 4 and the fourth with the variant bits.
abbrev pub uuid_form : List (ℕ → Bool)
uuid_form = times 8 is_hex (
    is_char b'-'
    ∷ times 4 is_hex (
        is_char b'-'
        ∷ is_char b'4'
        ∷ times 3 is_hex
            (is_char b'-' ∷ is_variant ∷ times 3 is_hex (is_char b'-' ∷ times 12 is_hex []))))

-- What the replacement puts in the place of a character.
abbrev test_of : ℕ → ℕ → Bool
test_of t = if t == b'x' then is_hex else if t == b'y' then is_variant else is_char t

template_form : map test_of template ≡ uuid_form
unfolding codes
template_form = refl

digit_table : all_below 16 (λ r. is_hex (hex_digit r)) ≡ true
unfolding all_below hex_digit
digit_table = refl

variant_table : all_below 16 (λ r. is_variant (hex_digit (bit_or (bit_and r 3) 8))) ≡ true
unfolding all_below hex_digit
variant_table = refl

module _ (random : ℕ → ℕ) (draws : (i : ℕ) → random i < 16) where
  fill-Matches : (i : ℕ) (ts : Text) → Matches (map test_of ts) (fill random i ts)
  unfolding fill
  fill-Matches i [] = tt
  fill-Matches i (t ∷ ts) = elim (Bool-cases (t == b'x')) [
    | inl e ↦ rw e (of_all_below 16 _ _ digit_table (draws i), fill-Matches (suc i) ts)
    | inr e ↦ rw e (elim (Bool-cases (t == b'y')) [
      | inl e' ↦ rw e' (of_all_below 16 _ _ variant_table (draws i), fill-Matches (suc i) ts)
      | inr e' ↦ rw e' ((==_iff t t).1 refl, fill-Matches i ts)
    ])
  ]

module _ {W : Type 0} (b : Browser W) where
  -- Where the storage has no id and the random draws are below 16, the id has the form of a version
  -- 4 UUID: groups of 8, 4, 4, 4 and 12 lower-case hexadecimal digits with dashes between them, the
  -- first digit of the third group 4, and that of the fourth 8, 9, a or b.
  pub client_id-Matches :
      (draws : (i : ℕ) → b.random i < 16) (s : Storage)
      → truthy_text s.client_id ≡ none
      → Matches uuid_form (client_id b s).0
  unfolding client_id
  client_id-Matches draws s e =
      rw (sym template_form) (rw (e, client_id) (fill-Matches b.random draws s.drawn template))

  pub kept_id :
      (s : Storage) (id : Text) → truthy_text s.client_id ≡ some id → client_id b s ≡ (id, s)
  unfolding client_id
  kept_id s id e = rw (e, client_id) refl

  drawn_id :
      (s : Storage)
      → truthy_text s.client_id ≡ none
      → client_id b s ≡ (
        fill b.random s.drawn template,
        record s {
          client_id = some (fill b.random s.drawn template);
          drawn = s.drawn + placeholders template;
        },
      )
  unfolding client_id
  drawn_id s e = rw (e, client_id) refl

  -- A text that is filled in is not empty.
  truthy_text-fill :
      (i : ℕ) (c : ℕ) (ts : Text)
      → truthy_text (some (fill b.random i (c ∷ ts))) ≡ some (fill b.random i (c ∷ ts))
  unfolding fill
  truthy_text-fill i c ts = elim (Bool-cases (c == b'x')) [
    | inl e ↦ rw e refl
    | inr e ↦ rw e (elim (Bool-cases (c == b'y')) [ inl e' ↦ rw e' refl | inr e' ↦ rw e' refl ])
  ]

  template_parts : (c : ℕ) × (ts : Text) × (template ≡ c ∷ ts)
  unfolding codes
  template_parts = (_, _, refl)

  -- Whatever the storage holds, a second call of `clientId` gives the id of the first one and
  -- leaves the storage as it is.
  pub client_id_again : (s : Storage) → client_id b (client_id b s).1 ≡ client_id b s
  client_id_again s = elim (Option-cases (truthy_text s.client_id)) [
    | inr (id, e) ↦ rw (kept_id s id e) (kept_id s id e)
    | inl e ↦
        let (c, ts, t) = template_parts in
        rw (drawn_id s e) (kept_id _ _ (rw t (truthy_text-fill s.drawn c ts)))
  ]
