-- ===== src/AreaMap/Watching/Shown.antt =====
-- What the map of `aisMap` shows when its watches have nothing left to do.
use ais_store.Prelude.{
  true, false, none, some, List, [], ◌∷◌, ◌++◌, ◌≡◌, refl, ◌∙◌, sym, ap, map, All, All-append, inl,
  inr, Bool-cases, append_assoc, append-nil,
}
use ais_store.Number.{Number}
use ais_store.Params.{Area}
use ais_store.Area.{area_defined}
use ais_store.Area.Bounds.{IsOrdered, Covers}
use ais_store.AreaMap.{
  AreaMap, Feature, Projection, add_feature, feature_added, read_feature_geometry, add_box, corners,
  area_changed,
}
use ais_store.AreaMap.Quiescent.{area_changed-area, add_feature-Covers}

module _ {W : Type 0} ⦃n : Number W⦄ (proj : Projection W) where
  -- The feature of an area, if it is defined.
  abbrev pub own_features : Area W → List (Feature W)
  own_features a = elim (area_defined a) [ none ↦ [] | some box ↦ corners proj box ∷ [] ]

  area_changed-features : (m : AreaMap W) → (area_changed proj m).features ≡ own_features m.area
  unfolding area_changed add_box add_feature feature_added read_feature_geometry
  area_changed-features m =
      elim (area_defined m.area)
        as (λ o.
          (add_box proj o (record m { features = []; quiescent = true })).features
          ≡ elim o [ none ↦ [] | some box ↦ corners proj box ∷ [] ]) [
            | none ↦ refl
            | some box ↦ refl
          ]

  module _ (o : IsOrdered W) where
    -- The map has the feature of its area, and behind it boxes that the user drew within the area.
    abbrev pub Shows : AreaMap W → Type 0
    Shows m =
        (drawn : List (Feature W)) × (m.features ≡ own_features m.area ++ drawn)
        × All (λ f. All (Covers o m.area) (map proj.from_map f)) drawn

    pub area_changed-Shows : (m : AreaMap W) → Shows (area_changed proj m)
    area_changed-Shows m =
        ([], rw (area_changed-features m, (area_changed-area proj m).0, append-nil) refl, tt)

    pub add_feature-quiescent :
        (vs : Feature W) (m : AreaMap W)
        → m.quiescent ≡ false
        → (add_feature proj vs m).quiescent ≡ false
    unfolding add_feature feature_added read_feature_geometry
    add_feature-quiescent vs m q = rw q refl

    add_feature-features :
        (vs : Feature W) (m : AreaMap W) → (add_feature proj vs m).features ≡ m.features ++ vs ∷ []
    unfolding add_feature feature_added read_feature_geometry
    add_feature-features vs m = elim (Bool-cases m.quiescent) [
      | inl e ↦ rw e refl
      | inr e ↦ rw e refl
    ]

    -- Drawing within the area leaves the drawn box on the map.
    pub add_feature-Shows :
        (vs : Feature W) (m : AreaMap W)
        → m.quiescent ≡ false
        → Shows m
        → (add_feature proj vs m).area ≡ m.area
        → Shows (add_feature proj vs m)
    add_feature-Shows vs m q (drawn, e, within) kept =
        let (covered, _, _) = add_feature-Covers proj o vs m q in
        let now : All (Covers o m.area) (map proj.from_map vs) = rw kept at covered in
        (
          drawn ++ vs ∷ [],
          add_feature-features vs m
              ∙ ap (λ fs. fs ++ vs ∷ []) e
              ∙ append_assoc (own_features m.area) drawn (vs ∷ [])
              ∙ ap (λ a. own_features a ++ (drawn ++ vs ∷ [])) (sym kept),
          rw kept (
              All-append (λ f. All (Covers o m.area) (map proj.from_map f)) drawn (vs ∷ []) within
                (now, tt)),
        )
