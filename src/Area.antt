-- ===== src/Area.antt =====
-- The area selection of js/app-ctrl.js: `updateArea`, `clearArea` and `areaDefined`.
pub mod Bounds
use ais_store.Prelude.{
  ℕ, Bool, true, false, Option, none, some, List, [], ◌∷◌, foldl, if◌then◌else◌,
}
use ais_store.Number.{Number}
use ais_store.Params.{Params, Area, no_area}

module _ {W : Type 0} ⦃n : Number W⦄ where
  -- The local functions `max` and `min`: the second number may be `undefined`.
  unfoldable pub max_of : W → Option W → W
  max_of m1 none = m1
  max_of m1 (some m2) = n.max m1 m2

  unfoldable pub min_of : W → Option W → W
  min_of m1 none = m1
  min_of m1 (some m2) = n.min m1 m2

  -- One round of the loop; a coordinate is a longitude and a latitude.
  unfoldable pub area_step : Area W → W × W → Area W
  unfolding max_of min_of
  area_step a (lon, lat) = record {
    max_lat = some (max_of lat a.max_lat);
    max_lon = some (max_of lon a.max_lon);
    min_lat = some (min_of lat a.min_lat);
    min_lon = some (min_of lon a.min_lon);
  }

  -- `updateArea`; `none` is `undefined`
  unfoldable pub update_area : Option (List (W × W)) → Params W → Params W
  unfolding area_step
  update_area none p = record p { area = no_area }
  update_area (some []) p = record p { area = no_area }
  update_area (some (c ∷ cs)) p = record p { area = foldl area_step no_area (c ∷ cs) }

  unfoldable pub clear_area : Params W → Params W
  unfolding update_area
  clear_area p = update_area none p

  -- A number that is neither `undefined` nor falsy.
  unfoldable pub truthy : Option W → Option W
  truthy none = none
  truthy (some x) = if n.is_truthy x then some x else none

  infixl 5 ◌>>=◌
  abbrev ◌>>=◌ {κ} : {B : Type κ} → Option W → (W → Option B) → Option B
  none >>= f = none
  some x >>= f = f x

  -- `areaDefined`, with the four numbers that the URL takes where it holds: maximal latitude,
  -- minimal longitude, minimal latitude, maximal longitude.
  unfoldable pub area_defined : Area W → Option (W × W × W × W)
  unfolding truthy
  area_defined a = do
    max_lat ← truthy a.max_lat
    max_lon ← truthy a.max_lon
    min_lat ← truthy a.min_lat
    min_lon ← truthy a.min_lon
    some (max_lat, min_lon, min_lat, max_lon)
