-- ===== src/AreaMap.antt =====
-- The directive `aisMap` of js/app-directives.js: a box on a map that shows the area and that the
-- user draws. The map is OpenLayers': its projections are arguments, and adding a feature to the
-- layer calls the handler of `featureadded` at once.
pub mod Quiescent
pub mod Watching
use ais_store.Prelude.{
  Bool, true, false, not, Option, none, some, List, [], ◌∷◌, ◌++◌, if◌then◌else◌, foldl, map,
}
use ais_store.Number.{Number}
use ais_store.Params.{Area, no_area}
use ais_store.Area.{max_of, min_of, area_defined}

-- A feature of the layer: the vertices of its polygon, in the map's projection.
abbrev pub Feature : Type 0 → Type 0
Feature W = List (W × W)

pub record AreaMap (W : Type 0) : Type 0 where
  pub area : Area W
  pub box_active : Bool
  pub quiescent : Bool
  pub features : List (Feature W)

-- The transformations between degrees and the map, of a longitude and a latitude.
pub record Projection (W : Type 0) : Type 0 where
  pub to_map : W × W → W × W
  pub from_map : W × W → W × W

module _ {W : Type 0} ⦃n : Number W⦄ (proj : Projection W) where
  -- One round of the loop of `readFeatureGeometry`.
  read_vertex : Area W → W × W → Area W
  read_vertex a vertex =
      let pt = proj.from_map vertex in
      record {
        max_lon = some (max_of pt.0 a.max_lon);
        max_lat = some (max_of pt.1 a.max_lat);
        min_lon = some (min_of pt.0 a.min_lon);
        min_lat = some (min_of pt.1 a.min_lat);
      }

  -- `readFeatureGeometry`, its `$apply` aside
  unfoldable pub read_feature_geometry : Feature W → AreaMap W → AreaMap W
  unfolding read_vertex
  read_feature_geometry vertices m =
      if m.quiescent then m else record m { area = foldl read_vertex m.area vertices }

  -- The handler of "featureadded".
  unfoldable pub feature_added : Feature W → AreaMap W → AreaMap W
  unfolding read_feature_geometry
  feature_added vertices m = record (read_feature_geometry vertices m) { box_active = false }

  -- A feature is added to the layer, by `boxLayer.addFeatures` or by the user, whose `$apply` is
  -- left to Watching.
  unfoldable pub add_feature : Feature W → AreaMap W → AreaMap W
  unfolding feature_added
  add_feature vertices m =
      feature_added vertices (record m { features = m.features ++ vertices ∷ [] })

  -- The corners of a defined area in the order of the code.
  unfoldable pub corners : W × W × W × W → Feature W
  corners (max_lat, min_lon, min_lat, max_lon) =
      map proj.to_map
        ((min_lon, min_lat) ∷ (min_lon, max_lat) ∷ (max_lon, max_lat) ∷ (max_lon, min_lat) ∷ [])

  add_box : Option (W × W × W × W) → AreaMap W → AreaMap W
  unfolding add_feature corners
  add_box none m = m
  add_box (some box) m = add_feature (corners box) m

  -- The watch on the area.
  unfoldable pub area_changed : AreaMap W → AreaMap W
  unfolding add_box
  area_changed m =
      let drawn = add_box (area_defined m.area) (record m { features = []; quiescent = true }) in
      record drawn { quiescent = false }

  -- `removeArea`
  unfoldable pub remove_area : AreaMap W → AreaMap W
  remove_area m = record m { area = no_area }
