-- ===== src/Controller/Digest/Passes.antt =====
-- Whole passes over the watches, after whatever has happened to the page.
use ais_store.Prelude.{
  ◌∙◌, Bool, true, false, Option, none, some, List, [], ◌∷◌, ◌≡◌, refl, arith, foldl, ◌&&◌, inl,
  inr, Bool-cases,
}
use ais_store.Prelude.Int.{ℤ, eq_ℤ, eq_ℤ_refl, ◌≤ℤ◌}
use ais_store.Text.{text_eq_iff}
use ais_store.Number.{Number}
use ais_store.Interval.Ordered.{IsExact, IsOrdered}
use ais_store.Controller.{Page, World, update_url, validate_interval}
use ais_store.Controller.Digest.{
  Watched, is_seen, start_seen, end_seen, format_seen, is_quiet, start_changed, end_changed,
  format_changed, start_watch, end_watch, format_watch, pass,
}
use ais_store.Controller.Digest.Bound.{crossed, validated_start, validated_end}

module _ {W : Type 0} where
  abbrev pub InOrder : Watched W → Type 0
  InOrder s = crossed s.page.params.start_date s.page.params.end_date ≡ false

  -- Dates that both watches have seen are in order.
  abbrev pub IsSound : Watched W → Type 0
  IsSound s = start_seen s ≡ true → end_seen s ≡ true → InOrder s

  -- A page on which the watches are quiet and the dates in order.
  abbrev pub IsSettled : Watched W → Type 0
  IsSettled s = (is_quiet s ≡ true) × IsOrdered s.page.params

  -- A page before the first digest.
  abbrev pub opened_page : Page W → Watched W
  opened_page c = record { page = c; seen_start = none; seen_end = none; seen_format = none }

ordered_of : (a b : ℤ) → crossed a b ≡ false → a ≤ℤ b
ordered_of a b h = ground arith

quiet_of : (a b c : Bool) → a ≡ true → b ≡ true → c ≡ true → (a && b && c) ≡ true
quiet_of a b c p q r = ground arith

-- Whatever a handler or the user does to the page, dates that are still seen are still in order.
same_dates :
    (x y : Option ℤ) (a b a' b' : ℤ)
    → crossed a b ≡ false
    → is_seen eq_ℤ x a ≡ true
    → is_seen eq_ℤ y b ≡ true
    → is_seen eq_ℤ x a' ≡ true
    → is_seen eq_ℤ y b' ≡ true
    → crossed a' b' ≡ false
same_dates none y a b a' b' h p q p' q' = cc
same_dates (some c) none a b a' b' h p q p' q' = cc
same_dates (some c) (some d) a b a' b' h p q p' q' = ground arith

crossed_of : (a b : ℤ) → a ≤ℤ b → crossed a b ≡ false
crossed_of a b h = ground arith

quiet_parts : (a b c : Bool) → (a && b && c) ≡ true → (a ≡ true) × (b ≡ true) × (c ≡ true)
quiet_parts a b c h = ground arith

module _ {W : Type 0} ⦃n : Number W⦄ (w : World W) where
  -- One turn: something happens to the page, and the watches run until a pass over them has nothing
  -- to do, which the third pass has not.
  abbrev pub turn : Watched W → (Page W → Page W) → Watched W
  turn s happens = pass w (pass w (record s { page = happens s.page }))

module _ {W : Type 0} ⦃n : Number W⦄ (w : World W) (exact : IsExact w.moment) where
  start_watch-facts :
      (s : Watched W)
      → IsSound s
      → (start_seen (start_watch w s) ≡ true)
        × (end_seen (start_watch w s) ≡ true → InOrder (start_watch w s))
        × (InOrder s → end_seen (start_watch w s) ≡ end_seen s)
        × (format_seen (start_watch w s) ≡ format_seen s)
        × (InOrder s → InOrder (start_watch w s))
  unfolding start_watch start_changed validate_interval update_url
  start_watch-facts s sound =
      let (same, ordered, keeps) = validated_start w.moment exact s.page.params in
      elim (Bool-cases (start_seen s)) [
        | inl e ↦ rw e (e, sound e, (λ o. refl), refl, (λ o. o))
        | inr e ↦ rw e (
            rw same (
              eq_ℤ_refl s.page.params.start_date,
              (λ h. ordered),
              (λ o. rw (keeps o) refl),
              refl,
              (λ o. ordered),
            ))
      ]

  end_watch-facts :
      (s : Watched W)
      → start_seen s ≡ true
      → (end_seen s ≡ true → InOrder s)
      → (end_seen (end_watch w s) ≡ true)
        × InOrder (end_watch w s)
        × (InOrder s → start_seen (end_watch w s) ≡ true)
        × (format_seen (end_watch w s) ≡ format_seen s)
  unfolding end_watch end_changed validate_interval update_url
  end_watch-facts s started sound =
      let (same, ordered, keeps) = validated_end w.moment exact s.page.params in
      elim (Bool-cases (end_seen s)) [
        | inl e ↦ rw e (e, sound e, (λ o. started), refl)
        | inr e ↦
            rw e (
              rw same
                (eq_ℤ_refl s.page.params.end_date, ordered, (λ o. rw (keeps o) started), refl))
      ]

  format_watch-facts :
      (s : Watched W)
      → (format_seen (format_watch w s) ≡ true)
        × (start_seen (format_watch w s) ≡ start_seen s)
        × (end_seen (format_watch w s) ≡ end_seen s)
        × (InOrder s → InOrder (format_watch w s))
  unfolding format_watch format_changed update_url
  format_watch-facts s = elim (Bool-cases (format_seen s)) [
    | inl e ↦ rw e (e, refl, refl, (λ o. o))
    | inr e ↦ rw e ((text_eq_iff _ _).1 refl, refl, refl, (λ o. o))
  ]

  -- After one pass the dates are in order, and only the start may have changed behind its watch.
  pass-InOrder :
      (s : Watched W)
      → IsSound s
      → (end_seen (pass w s) ≡ true)
        × (format_seen (pass w s) ≡ true)
        × InOrder (pass w s)
        × (InOrder s → start_seen (pass w s) ≡ true)
  unfolding pass
  pass-InOrder s sound =
      let (started, ends, _, _, keeps) = start_watch-facts s sound in
      let t = start_watch w s in
      let (ended, ordered, stays, _) = end_watch-facts t started ends in
      let (formatted, start_kept, end_kept, order_kept) = format_watch-facts (end_watch w t) in
      (end_kept ∙ ended, formatted, order_kept ordered, λ o. start_kept ∙ stays (keeps o))

  pub pass_twice : (s : Watched W) → IsSound s → IsSettled (pass w (pass w s))
  pass_twice s sound =
      let (ended, _, ordered, _) = pass-InOrder s sound in
      let (ended', formatted', ordered', started') = pass-InOrder (pass w s) (λ _ _. ordered) in
      (
        quiet_of _ _ _ (started' ordered) ended' formatted',
        ordered_of (pass w (pass w s)).page.params.start_date
            (pass w (pass w s)).page.params.end_date ordered',
      )

  pub turn-IsSettled :
      (s : Watched W) (happens : Page W → Page W) → IsSettled s → IsSettled (turn w s happens)
  turn-IsSettled s happens (quiet, ordered) =
      let (started, ended, _) = quiet_parts _ _ _ quiet in
      pass_twice (record s { page = happens s.page })
        (same_dates s.seen_start s.seen_end _ _ _ _
          (crossed_of s.page.params.start_date s.page.params.end_date ordered) started ended)

  foldl-turn :
      (happenings : List (Page W → Page W)) (s : Watched W)
      → IsSettled s
      → IsSettled (foldl (turn w) s happenings)
  foldl-turn [] s h = h
  foldl-turn (x ∷ xs) s h = foldl-turn xs (turn w s x) (turn-IsSettled s x h)

  -- Where the moment library adds minutes exactly, two passes over the watches are enough after
  -- whatever happens to a page, from its opening on: then no watch has anything left to do, and the
  -- start is not behind the end.
  pub foldl-turn-IsSettled :
      (c : Page W) (happenings : List (Page W → Page W))
      → IsSettled (foldl (turn w) (turn w (opened_page c) (λ d. d)) happenings)
  foldl-turn-IsSettled c happenings = foldl-turn happenings _ (pass_twice (opened_page c) (λ h. cc))
