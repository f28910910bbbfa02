-- ===== src/AreaMap/Watching/Settling.antt =====
-- What a digest makes of the state of `aisMap`.
use ais_store.Prelude.{
  Bool, true, false, Option, none, some, ◌≡◌, refl, ◌∙◌, sym, ap, inl, inr, Bool-cases,
}
use ais_store.Number.{Number}
use ais_store.Params.{Area}
use ais_store.Area.Bounds.{IsOrdered}
use ais_store.AreaMap.{Projection}
use ais_store.AreaMap.Quiescent.{area_changed-area}
use ais_store.AreaMap.Watching.{
  Watched, same_bool, active_seen, area_seen, watch_active, watch_area, pass, digest,
}
use ais_store.AreaMap.Watching.Shown.{Shows, area_changed-Shows}

same_bool-eq : (a b : Bool) → same_bool a b ≡ true → a ≡ b
same_bool-eq true b h = sym h
same_bool-eq false true h = cc
same_bool-eq false false h = refl

active_seen-eq : (o : Option Bool) (b : Bool) → active_seen o b ≡ true → o ≡ some b
active_seen-eq none b h = cc
active_seen-eq (some a) b h = ap some (same_bool-eq a b h)

pub some-injective {ℓ} : {A : Type ℓ} {a b : A} → some a ≡ some b → a ≡ b
some-injective e = cc

pub same_bool_refl : (b : Bool) → same_bool b b ≡ true
same_bool_refl true = refl
same_bool_refl false = refl

-- Angular's `equals` on areas.
pub record IsSame {W : Type 0} (same : Area W → Area W → Bool) : Type 0 where
  pub equal : (a b : Area W) → same a b ≡ true → a ≡ b
  pub itself : (a : Area W) → same a a ≡ true

module _ {W : Type 0} ⦃n : Number W⦄ (proj : Projection W) (o : IsOrdered W) where
  -- What holds before a pass: a watch that has nothing to do has done it.
  pub record IsReady (s : Watched W) : Type 0 where
    pub quiet : s.map.quiescent ≡ false
    pub shown : s.seen_area ≡ some s.map.area → Shows proj o s.map
    pub controlled : (b : Bool) → s.seen_active ≡ some b → s.control ≡ b

  -- What holds when neither watch has anything left to do: the drawing control is active exactly
  -- if `boxActive` is set, and the map shows its area.
  pub record IsDisplayed (s : Watched W) : Type 0 where
    pub quiet : s.map.quiescent ≡ false
    pub active_known : s.seen_active ≡ some s.map.box_active
    pub area_known : s.seen_area ≡ some s.map.area
    pub controlled : s.control ≡ s.map.box_active
    pub shown : Shows proj o s.map

  module _ (same : Area W → Area W → Bool) (is_same : IsSame same) where
    area_seen-eq : (x : Option (Area W)) (a : Area W) → area_seen same x a ≡ true → x ≡ some a
    area_seen-eq none a h = cc
    area_seen-eq (some b) a h = ap some (is_same.equal b a h)

    not_seen : (a : Area W) (x : Option (Area W)) → area_seen same x a ≡ false → x ≡ some a → ⊥
    not_seen a x e known = cc (is_same.itself a, e, ap (λ y. area_seen same y a) known)

    watch_active-facts :
        (s : Watched W)
        → IsReady s
        → let t = watch_active proj same s in
          (t.map ≡ s.map)
          × (t.seen_area ≡ s.seen_area)
          × (t.seen_active ≡ some s.map.box_active)
          × (t.control ≡ s.map.box_active)
    unfolding watch_active
    watch_active-facts s r = elim (Bool-cases (active_seen s.seen_active s.map.box_active)) [
      | inl e ↦
          let known = active_seen-eq s.seen_active s.map.box_active e in
          rw e (refl, refl, known, r.controlled s.map.box_active known)
      | inr e ↦ rw e (refl, refl, refl, refl)
    ]

    watch_area-facts :
        (s : Watched W)
        → (s.map.quiescent ≡ false)
        → (s.seen_area ≡ some s.map.area → Shows proj o s.map)
        → let t = watch_area proj same s in
          (t.map.quiescent ≡ false)
          × (t.seen_area ≡ some t.map.area)
          × Shows proj o t.map
          × (t.seen_active ≡ s.seen_active)
          × (t.control ≡ s.control)
          × (s.seen_area ≡ some s.map.area → t ≡ s)
    unfolding watch_area
    watch_area-facts s q shown = elim (Bool-cases (area_seen same s.seen_area s.map.area)) [
      | inl e ↦
          let known = area_seen-eq s.seen_area s.map.area e in
          rw e (q, known, shown known, refl, refl, (λ _. refl))
      | inr e ↦
          let (kept, over) = area_changed-area proj s.map in
          rw e (
            over,
            ap some (sym kept),
            area_changed-Shows proj o s.map,
            refl,
            refl,
            λ known. absurd (not_seen s.map.area s.seen_area e known),
          )
    ]

    pass-IsReady :
        (s : Watched W)
        → IsReady s
        → let t = pass proj same s in IsReady t × (t.seen_area ≡ some t.map.area)
    unfolding pass
    pass-IsReady s r =
        let t = watch_active proj same s in
        let (map_kept, area_kept, known, controlled) = watch_active-facts s r in
        let (quiet, area_known, shown, active_kept, control_kept, _) =
          watch_area-facts t (rw map_kept r.quiet) (rw (map_kept, area_kept) r.shown) in
        (
          record {
            quiet = quiet;
            shown = λ _. shown;
            controlled =
                λ b e. control_kept ∙ controlled ∙ some-injective (sym known ∙ sym active_kept ∙ e);
          },
          area_known,
        )

    -- In a pass that finds the area as it was seen, the watch on the area does nothing.
    pass-IsDisplayed :
        (s : Watched W) → IsReady s → s.seen_area ≡ some s.map.area → IsDisplayed (pass proj same s)
    unfolding pass
    pass-IsDisplayed s r known_area =
        let t = watch_active proj same s in
        let (map_kept, area_kept, known, controlled) = watch_active-facts s r in
        let seen : t.seen_area ≡ some t.map.area = rw (map_kept, area_kept) known_area in
        let (_, _, _, _, _, still) =
          watch_area-facts t (rw map_kept r.quiet) (rw (map_kept, area_kept) r.shown) in
        rw (still seen) (record {
          quiet = rw map_kept r.quiet;
          active_known = rw map_kept known;
          area_known = seen;
          controlled = rw map_kept controlled;
          shown = rw map_kept (r.shown known_area);
        })

    pub digest-IsDisplayed : (s : Watched W) → IsReady s → IsDisplayed (digest proj same s)
    unfolding digest
    digest-IsDisplayed s r =
        let (again, known) = pass-IsReady s r in pass-IsDisplayed (pass proj same s) again known
