-- ===== src/Position/Accepted.antt =====
-- Which texts the parsers of js/position.js accept, and which they refuse by an exception.
use mathlib.Core.Path.{subst}
use ais_store.Prelude.{
  All, ℕ, true, Option, none, some, List, [], ◌∷◌, ◌++◌, ◌≡◌, ◌↔◌, ◌⊎◌, refl, ◌∙◌, sym, ap, arith,
  inl, inr, Bool-cases, Option-cases, ◌==◌,
}
use ais_store.Text.{Text, IsFree, split, trim, join}
use ais_store.Text.Split.{split-join, join-split, split-IsFree}
use ais_store.Number.{Number}
use ais_store.Position.{
  Float, Axis, init, last_char, split_formatted_pos, two_parts, parse_string, upper, is_plain,
  with_direction, parse_parts, parse_split, parse,
}

-- Degrees, one space, minutes and the letter of a direction, in either case. Degrees and minutes
-- may be any texts without a space.
pub record IsPosition (axis : Axis) (s : Text) : Type 0 where
  pub hours : Text
  pub minutes : Text
  pub letter : ℕ
  pub hours_free : IsFree b' ' hours
  pub minutes_free : IsFree b' ' minutes
  pub parts : trim (init s) ≡ hours ++ b' ' ∷ minutes
  pub last : trim (last_char s) ≡ letter ∷ []
  pub known : (upper letter ≡ axis.positive) ⊎ (upper letter ≡ axis.negative)

split_two :
    (s hours minutes : Text) → split b' ' s ≡ hours ∷ minutes ∷ [] → s ≡ hours ++ b' ' ∷ minutes
unfolding join
split_two s hours minutes e = sym (join-split b' ' s) ∙ ap (join (b' ' ∷ [])) e

split-of_two :
    (s hours minutes : Text)
    → IsFree b' ' hours
    → IsFree b' ' minutes
    → s ≡ hours ++ b' ' ∷ minutes
    → split b' ' s ≡ hours ∷ minutes ∷ []
unfolding join
split-of_two s hours minutes h m e =
    ap (split b' ') e ∙ split-join b' ' hours (minutes ∷ []) (h, (m, tt))

-- Two parts are found where there are two.
two_parts-some :
    (d : Text) (ts : List Text) (x : Text × Text × Text)
    → two_parts d ts ≡ some x
    → (hours : Text) × (minutes : Text) × (ts ≡ hours ∷ minutes ∷ []) × (x ≡ (hours, minutes, d))
unfolding two_parts
two_parts-some d [] x e = cc
two_parts-some d (h ∷ []) x e = cc
two_parts-some d (h ∷ m ∷ []) x e = (h, m, refl, cc)
two_parts-some d (h ∷ m ∷ t ∷ ts) x e = cc

abbrev nonempty : Text → Option Text
nonempty [] = none
nonempty (c ∷ t) = some (c ∷ t)

nonempty-some : (s t : Text) → nonempty s ≡ some t → s ≡ t
nonempty-some [] t e = cc
nonempty-some (c ∷ s) t e = cc

parse_string-nonempty : (s : Text) → parse_string s ≡ nonempty (trim s)
parse_string-nonempty s =
    elim (trim s) as (λ u. (elim u [ [] ↦ none | c ∷ t ↦ some (c ∷ t) ]) ≡ nonempty u) [
      | [] ↦ refl
      | c ∷ t ↦ refl
    ]

module _ {W : Type 0} ⦃n : Number W⦄ (f : Float W) (axis : Axis) where
  with_direction-some :
      (value v : W) (o : Option Text)
      → with_direction f axis value o ≡ some v
      → (c : ℕ) × (o ≡ some (c ∷ [])) × ((upper c ≡ axis.positive) ⊎ (upper c ≡ axis.negative))
  unfolding with_direction
  with_direction-some value v none e = cc
  with_direction-some value v (some []) e = cc
  with_direction-some value v (some (c ∷ d ∷ t)) e = cc
  with_direction-some value v (some (c ∷ [])) e = (c, refl, ground arith)

  with_direction-known :
      (value : W) (c : ℕ)
      → (upper c ≡ axis.positive) ⊎ (upper c ≡ axis.negative)
      → (v : W) × (with_direction f axis value (some (c ∷ [])) ≡ some v)
  unfolding with_direction
  with_direction-known value c h = elim (Bool-cases (upper c == axis.negative)) [
    | inl e ↦ (f.negate value, ground arith)
    | inr e ↦ (value, ground arith)
  ]

  parse_split-some :
      (s : Text) (v : W) → parse_split f axis (split_formatted_pos s) ≡ some v → IsPosition axis s
  unfolding parse_split split_formatted_pos parse_parts
  parse_split-some s v e = elim (Option-cases (split_formatted_pos s)) [
    | inl h ↦ cc (sym (ap (parse_split f axis) h) ∙ e)
    | inr (x, h) ↦
        let (hours, minutes, both, same) = two_parts-some _ _ x h in
        let read = sym (ap (parse_split f axis) (h ∙ ap some same)) ∙ e in
        let (c, one, known) = with_direction-some _ v _ read in
        let free : All (IsFree b' ') (hours ∷ minutes ∷ []) =
          subst (All (IsFree b' ')) both (split-IsFree b' ' (trim (init s))) in
        record {
          hours = hours;
          minutes = minutes;
          letter = c;
          hours_free = free.0;
          minutes_free = free.1.0;
          parts = split_two (trim (init s)) hours minutes both;
          last =
              nonempty-some (trim (last_char s)) (c ∷ [])
                (sym (parse_string-nonempty (last_char s)) ∙ one);
          known = known;
        }
  ]

  parse_split-of_IsPosition :
      (s : Text)
      → IsPosition axis s
      → (v : W) × (parse_split f axis (split_formatted_pos s) ≡ some v)
  unfolding parse_split split_formatted_pos parse_parts two_parts
  parse_split-of_IsPosition s p =
      let parts =
        split-of_two (trim (init s)) p.hours p.minutes p.hours_free p.minutes_free p.parts in
      let letter = parse_string-nonempty (last_char s) ∙ ap nonempty p.last in
      let (v, e) =
        with_direction-known
          (f.plus (f.parse_int p.hours) (f.divide (f.parse_float p.minutes) (f.of_nat 60))) p.letter
          p.known in
      (
        v,
        ap (λ ts. parse_split f axis (two_parts (last_char s) ts)) parts
            ∙ ap (with_direction f axis _) letter
            ∙ e,
      )

  -- A text is accepted exactly if it is a plain number or has degrees, one space, minutes and the
  -- letter of a direction; for all other texts the parser throws. That degrees and minutes are
  -- numbers is not asked.
  pub parse_iff :
      (s : Text)
      → ((v : W) × (parse f axis s ≡ some v)) ↔ ((is_plain f s ≡ true) ⊎ IsPosition axis s)
  unfolding parse
  parse_iff s = elim (Bool-cases (is_plain f s)) [
    | inl e ↦ (λ _. inl e, λ _. (f.parse_float s, rw e refl))
    | inr e ↦ (
      λ r. inr (parse_split-some s r.0 (rw e at r.1)),
      λ h. elim h [ inl e' ↦ cc | inr p ↦ rw e (parse_split-of_IsPosition s p) ],
    )
  ]
