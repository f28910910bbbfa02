-- ===== src/AreaMap/Watching.antt =====
-- The two watches of the directive `aisMap`, on `boxActive` and on the area, and what the user does
-- on the map and in the fields of the area. The watch on the area compares by `same`, Angular's
-- `equals`.
pub mod Shown
pub mod Settling
pub mod Displayed
use ais_store.Prelude.{
  [], ◌∷◌, ◌++◌, Bool, true, false, not, Option, none, some, ◌▷◌, if◌then◌else◌,
}
use ais_store.Number.{Number}
use ais_store.Params.{Area}
use ais_store.AreaMap.{
  AreaMap, Feature, Projection, read_feature_geometry, area_changed, remove_area,
}

pub record Watched (W : Type 0) : Type 0 where
  pub map : AreaMap W
  -- whether `boxControl` is active
  pub control : Bool
  -- what the watches saw last; `none` before the first call
  pub seen_active : Option Bool
  pub seen_area : Option (Area W)

-- The user draws a box, presses the button that starts and ends drawing and removes the area, edits the area in the
-- fields of the page, and removes it.
pub data Gesture (W : Type 0) : Type 0 where
  draw : Feature W → Gesture W
  toggle : Bool → Gesture W
  edit : Area W → Gesture W
  remove : Gesture W

abbrev pub same_bool : Bool → Bool → Bool
same_bool true b = b
same_bool false b = not b

abbrev pub active_seen : Option Bool → Bool → Bool
active_seen none b = false
active_seen (some a) b = same_bool a b

abbrev pub area_seen : {W : Type 0} → (Area W → Area W → Bool) → Option (Area W) → Area W → Bool
area_seen same none b = false
area_seen same (some a) b = same a b

module _ {W : Type 0} ⦃n : Number W⦄ (proj : Projection W) (same : Area W → Area W → Bool) where
  -- The watch on `boxActive`.
  unfoldable pub watch_active : Watched W → Watched W
  watch_active s =
      if active_seen s.seen_active s.map.box_active
      then s
      else record s { control = s.map.box_active; seen_active = some s.map.box_active }

  -- The watch on the area.
  unfoldable pub watch_area : Watched W → Watched W
  watch_area s =
      if area_seen same s.seen_area s.map.area
      then s
      else record s { map = area_changed proj s.map; seen_area = some s.map.area }

  -- One pass over the watches, in the order in which they were made.
  unfoldable pub pass : Watched W → Watched W
  unfolding watch_active watch_area
  pass s = s ▷ watch_active ▷ watch_area

  -- `$apply`: two passes, after which the watches have nothing left to do.
  unfoldable pub digest : Watched W → Watched W
  unfolding pass
  digest s = pass (pass s)

  -- The user has drawn a box: it is on the layer, `readFeatureGeometry` reads it and calls `$apply`,
  -- and only then the handler of "featureadded" sets `boxActive`.
  unfoldable pub drawn : Feature W → Watched W → Watched W
  unfolding digest
  drawn vertices s =
      let layer = record s.map { features = s.map.features ++ vertices ∷ [] } in
      let read = digest (record s { map = read_feature_geometry proj vertices layer }) in
      record read { map = record read.map { box_active = false } }

  -- A gesture, and the digests that follow it. Only an active control draws. The button of
  -- area-map.html calls `removeArea` and sets `boxActive`, each with its digest.
  unfoldable pub turn : Watched W → Gesture W → Watched W
  unfolding digest drawn
  turn s (draw vertices) = if s.control then drawn vertices s else s
  turn s (toggle active) =
      let removed = digest (record s { map = remove_area proj s.map }) in
      digest (record removed { map = record removed.map { box_active = active } })
  turn s (edit area) = digest (record s { map = record s.map { area = area } })
  turn s remove = digest (record s { map = remove_area proj s.map })

  -- The directive as it is linked to an area: nothing is drawn, and no watch was called.
  unfoldable pub link : Area W → Watched W
  link area = record {
    map = record { area = area; box_active = false; quiescent = false; features = [] };
    control = false;
    seen_active = none;
    seen_area = none;
  }
