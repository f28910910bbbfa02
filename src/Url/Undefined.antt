-- ===== src/Url/Undefined.antt =====
-- The query of an area that is only partly defined.
use ais_store.Prelude.{Option, none, some, ◌▷◌, ◌≡◌, ◌⊎◌, refl, ap, arith, inl, inr, false}
use ais_store.Text.{Text}
use ais_store.Number.{Number, Moment}
use ais_store.Params.{Params, Area, no_area}
use ais_store.Area.{truthy, area_defined}
use ais_store.Url.{
  interval, simple_filter, add_filter, add_mmsi, add_box, add_output, add_header, add_table,
  add_number, update_download_url,
}

module _ {W : Type 0} ⦃n : Number W⦄ where
  -- A bound that is undefined or falsy.
  abbrev pub IsFalsy : Option W → Type 0
  IsFalsy o = (o ≡ none) ⊎ ((x : W) × (o ≡ some x) × (n.is_truthy x ≡ false))

  -- One bound at least is.
  abbrev pub IsPartial : Area W → Type 0
  IsPartial a = IsFalsy a.max_lat ⊎ (IsFalsy a.max_lon ⊎ (IsFalsy a.min_lat ⊎ IsFalsy a.min_lon))

  truthy-IsFalsy : (o : Option W) → IsFalsy o → truthy o ≡ none
  unfolding truthy
  truthy-IsFalsy o (inl e) = rw e refl
  truthy-IsFalsy o (inr (x, e, zero)) = rw e (rw zero refl)

  area_defined-none : (a : Area W) → IsPartial a → area_defined a ≡ none
  unfolding area_defined
  area_defined-none a h = ground (
    arith,
    truthy-IsFalsy a.max_lat,
    truthy-IsFalsy a.max_lon,
    truthy-IsFalsy a.min_lat,
    truthy-IsFalsy a.min_lon,
  )

  add_box-IsPartial : (a : Area W) (url : Text) → IsPartial a → add_box a url ≡ url
  unfolding add_box
  add_box-IsPartial a url h = rw (area_defined-none a h, add_box) refl

  -- Where one bound of the area is undefined or falsy, as 0 is, the query is the one of a page on
  -- which no area was chosen at all, whatever the other bounds say.
  pub update_download_url-IsPartial :
      (m : Moment) (p : Params W)
      → IsPartial p.area
      → update_download_url m p ≡ update_download_url m (record p { area = no_area })
  unfolding update_download_url add_filter simple_filter add_output add_table add_header interval
      add_box area_defined truthy
  update_download_url-IsPartial m p h =
      ap
        (λ url.
          url
          ▷ add_output p
          ▷ add_table p
          ▷ add_number "&limit=" p.limit ""
          ▷ add_number "&minDistance=" p.min_distance ""
          ▷ add_number "&minDuration=P0Y0M0DT0H0M" p.min_duration "S"
          ▷ add_number "&duplicateWindow=" p.duplicate_window "")
        (add_box-IsPartial p.area (interval m p ▷ add_filter p ▷ add_mmsi p.mmsi) h)
