-- ===== src/AreaMap/Quiescent.antt =====
-- What showing an area on the map of `aisMap`, and drawing a box there, do to the area.
use ais_store.Prelude.{true, false, Option, none, some, [], ◌∷◌, ◌≡◌, refl, foldl, map, All}
use ais_store.Number.{Number}
use ais_store.Params.{Area}
use ais_store.Area.{area_defined, area_step}
use ais_store.Area.Bounds.{IsOrdered, Covers, foldl-Covers, foldl-All-Covers}
use ais_store.AreaMap.{
  AreaMap, Feature, Projection, read_vertex, read_feature_geometry, feature_added, add_feature,
  add_box, area_changed,
}

module _ {W : Type 0} ⦃n : Number W⦄ (proj : Projection W) where
  add_box-area :
      (box : Option (W × W × W × W)) (m : AreaMap W)
      → m.quiescent ≡ true
      → (add_box proj box m).area ≡ m.area
  unfolding add_box add_feature feature_added read_feature_geometry
  add_box-area none m q = refl
  add_box-area (some box) m q = rw q refl

  -- Showing the area on the map, which calls the handler of `featureadded` for the new feature,
  -- leaves the area as it is, and ends with the flag `quiescent` off.
  pub area_changed-area :
      (m : AreaMap W)
      → ((area_changed proj m).area ≡ m.area) × ((area_changed proj m).quiescent ≡ false)
  unfolding area_changed
  area_changed-area m = (add_box-area (area_defined m.area) _ refl, refl)

  foldl-read_vertex :
      (vs : Feature W) (a : Area W)
      → foldl (read_vertex proj) a vs ≡ foldl area_step a (map proj.from_map vs)
  unfolding read_vertex area_step
  foldl-read_vertex [] a = refl
  foldl-read_vertex (v ∷ vs) a = foldl-read_vertex vs (read_vertex proj a v)

  module _ (o : IsOrdered W) where
    -- Where `Math.max` and `Math.min` give bounds in an order of the numbers and the flag
    -- `quiescent` is off, the area after a feature was drawn covers all vertices of the feature and
    -- all that the area covered before, and drawing is over.
    pub add_feature-Covers :
        (vs : Feature W) (m : AreaMap W)
        → m.quiescent ≡ false
        → All (Covers o (add_feature proj vs m).area) (map proj.from_map vs)
          × ((c : W × W) → Covers o m.area c → Covers o (add_feature proj vs m).area c)
          × ((add_feature proj vs m).box_active ≡ false)
    unfolding add_feature feature_added read_feature_geometry
    add_feature-Covers vs m q =
        rw (q, foldl-read_vertex vs m.area)
          (
            foldl-All-Covers o (map proj.from_map vs) m.area,
            foldl-Covers o (map proj.from_map vs) m.area,
            refl,
          )
