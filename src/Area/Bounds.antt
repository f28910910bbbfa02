-- ===== src/Area/Bounds.antt =====
-- `updateArea` of js/app-ctrl.js and the bounding box of the coordinates.
use mathlib.Core.List.{Memᴰ}
use ais_store.Prelude.{
  Bool, true, Option, none, some, List, [], ◌∷◌, foldl, ◌≡◌, refl, ◌∙◌, ◌≢◌, ◌⊎◌, inl, inr, arith,
  All,
}
use ais_store.Number.{Number}
use ais_store.Params.{Params, Area, no_area}
use ais_store.Area.{max_of, min_of, area_step, update_area}

-- What `Math.max` and `Math.min` do at numbers that are not NaN.
pub record IsOrdered (W : Type 0) ⦃n : Number W⦄ : Type 0 where
  pub le : W → W → Bool
  pub le_refl : (x : W) → le x x ≡ true
  pub le_trans : (x y z : W) → le x y ≡ true → le y z ≡ true → le x z ≡ true
  pub max_left : (x y : W) → le x (n.max x y) ≡ true
  pub max_right : (x y : W) → le y (n.max x y) ≡ true
  pub max_choice : (x y : W) → (n.max x y ≡ x) ⊎ (n.max x y ≡ y)
  pub min_left : (x y : W) → le (n.min x y) x ≡ true
  pub min_right : (x y : W) → le (n.min x y) y ≡ true
  pub min_choice : (x y : W) → (n.min x y ≡ x) ⊎ (n.min x y ≡ y)

module _ {W : Type 0} ⦃n : Number W⦄ (o : IsOrdered W) where
  open o use {le, le_refl, le_trans, max_left, max_right, min_left, min_right}

  -- A bound that is set, and holds at `x`.
  abbrev pub IsAbove : Option W → W → Type 0
  IsAbove none x = ⊥
  IsAbove (some m) x = le x m ≡ true

  abbrev pub IsBelow : Option W → W → Type 0
  IsBelow none x = ⊥
  IsBelow (some m) x = le m x ≡ true

  pub record Covers (a : Area W) (c : W × W) : Type 0 where
    pub lat_above : IsAbove a.max_lat c.1
    pub lon_above : IsAbove a.max_lon c.0
    pub lat_below : IsBelow a.min_lat c.1
    pub lon_below : IsBelow a.min_lon c.0

  IsAbove-max_of : (m : Option W) (x y : W) → IsAbove m x → IsAbove (some (max_of y m)) x
  unfolding max_of
  IsAbove-max_of none x y h = elim h [ ]
  IsAbove-max_of (some m) x y h = le_trans x m _ h (max_right y m)

  IsAbove-max_of_self : (m : Option W) (y : W) → IsAbove (some (max_of y m)) y
  unfolding max_of
  IsAbove-max_of_self none y = le_refl y
  IsAbove-max_of_self (some m) y = max_left y m

  IsBelow-min_of : (m : Option W) (x y : W) → IsBelow m x → IsBelow (some (min_of y m)) x
  unfolding min_of
  IsBelow-min_of none x y h = elim h [ ]
  IsBelow-min_of (some m) x y h = le_trans _ m x (min_right y m) h

  IsBelow-min_of_self : (m : Option W) (y : W) → IsBelow (some (min_of y m)) y
  unfolding min_of
  IsBelow-min_of_self none y = le_refl y
  IsBelow-min_of_self (some m) y = min_left y m

  area_step-Covers : (a : Area W) (c d : W × W) → Covers a c → Covers (area_step a d) c
  unfolding area_step
  area_step-Covers a c (lon, lat) h = record {
    lat_above = IsAbove-max_of a.max_lat _ lat h.lat_above;
    lon_above = IsAbove-max_of a.max_lon _ lon h.lon_above;
    lat_below = IsBelow-min_of a.min_lat _ lat h.lat_below;
    lon_below = IsBelow-min_of a.min_lon _ lon h.lon_below;
  }

  area_step-Covers_self : (a : Area W) (c : W × W) → Covers (area_step a c) c
  unfolding area_step
  area_step-Covers_self a (lon, lat) = record {
    lat_above = IsAbove-max_of_self a.max_lat lat;
    lon_above = IsAbove-max_of_self a.max_lon lon;
    lat_below = IsBelow-min_of_self a.min_lat lat;
    lon_below = IsBelow-min_of_self a.min_lon lon;
  }

  pub foldl-Covers :
      (cs : List (W × W)) (a : Area W) (c : W × W) → Covers a c → Covers (foldl area_step a cs) c
  foldl-Covers [] a c h = h
  foldl-Covers (d ∷ cs) a c h = foldl-Covers cs (area_step a d) c (area_step-Covers a c d h)

  pub foldl-All-Covers : (cs : List (W × W)) (a : Area W) → All (Covers (foldl area_step a cs)) cs
  foldl-All-Covers [] a = tt
  foldl-All-Covers (c ∷ cs) a = (
    foldl-Covers cs (area_step a c) c (area_step-Covers_self a c),
    foldl-All-Covers cs (area_step a c),
  )

  -- Where `Math.max` and `Math.min` give bounds in an order of the numbers, the four bounds that
  -- `updateArea` sets hold at every coordinate that was given.
  pub update_area-Covers :
      (cs : List (W × W)) (p : Params W) → All (Covers (update_area (some cs) p).area) cs
  unfolding update_area
  update_area-Covers [] p = tt
  update_area-Covers (c ∷ cs) p = foldl-All-Covers (c ∷ cs) no_area

module _ {W : Type 0} ⦃n : Number W⦄ where
  -- The bound is the number `f c` of one of the coordinates.
  abbrev pub Attains : (W × W → W) → List (W × W) → Option W → Type 0
  Attains f cs m = (c : W × W) × Memᴰ c cs × (m ≡ some (f c))

  pub record IsTight (cs : List (W × W)) (a : Area W) : Type 0 where
    pub max_lat : Attains (λ c. c.1) cs a.max_lat
    pub max_lon : Attains (λ c. c.0) cs a.max_lon
    pub min_lat : Attains (λ c. c.1) cs a.min_lat
    pub min_lon : Attains (λ c. c.0) cs a.min_lon

  Attains-cons :
      (f : W × W → W) (c : W × W) (cs : List (W × W)) (m : Option W)
      → Attains f cs m
      → Attains f (c ∷ cs) m
  Attains-cons f c cs m (d, listed, e) = (d, Memᴰ.tail listed, e)

  -- A bound that each round keeps, or takes from its coordinate.
  foldl-choice :
      (f : W × W → W) (g : Area W → Option W)
      → ((a : Area W) (c : W × W) → (g (area_step a c) ≡ g a) ⊎ (g (area_step a c) ≡ some (f c)))
      → (cs : List (W × W)) (a : Area W)
      → (g (foldl area_step a cs) ≡ g a) ⊎ Attains f cs (g (foldl area_step a cs))
  foldl-choice f g step [] a = inl refl
  foldl-choice f g step (c ∷ cs) a = elim (foldl-choice f g step cs (area_step a c)) [
    | inr h ↦ inr (Attains-cons f c cs _ h)
    | inl e ↦ elim (step a c) [
      | inl same ↦ inl (e ∙ same)
      | inr new ↦ inr (c, Memᴰ.head refl, e ∙ new)
    ]
  ]

  module _ (o : IsOrdered W) where
    open o use {max_choice, min_choice}

    max_of_choice : (m : Option W) (x : W) → (some (max_of x m) ≡ m) ⊎ (some (max_of x m) ≡ some x)
    unfolding max_of
    max_of_choice none x = inr refl
    max_of_choice (some m) x = ground (arith, max_choice x m)

    min_of_choice : (m : Option W) (x : W) → (some (min_of x m) ≡ m) ⊎ (some (min_of x m) ≡ some x)
    unfolding min_of
    min_of_choice none x = inr refl
    min_of_choice (some m) x = ground (arith, min_choice x m)

    foldl-Attains :
        (f : W × W → W) (g : Area W → Option W)
        → g no_area ≡ none
        → ((a : Area W) (c : W × W) → g (area_step a c) ≢ none)
        → ((a : Area W) (c : W × W) → (g (area_step a c) ≡ g a) ⊎ (g (area_step a c) ≡ some (f c)))
        → (c : W × W) (cs : List (W × W))
        → Attains f (c ∷ cs) (g (foldl area_step no_area (c ∷ cs)))
    foldl-Attains f g start set step c cs = elim (foldl-choice f g step cs (area_step no_area c)) [
      | inr h ↦ Attains-cons f c cs _ h
      | inl e ↦ elim (step no_area c) [
        | inl same ↦ absurd (set no_area c (same ∙ start))
        | inr new ↦ (c, Memᴰ.head refl, e ∙ new)
      ]
    ]

    -- Where `Math.max` and `Math.min` give one of their arguments, and one coordinate at least was
    -- given, each bound that `updateArea` sets is the latitude or longitude of one of the
    -- coordinates.
    pub update_area-IsTight :
        (c : W × W) (cs : List (W × W)) (p : Params W)
        → IsTight (c ∷ cs) (update_area (some (c ∷ cs)) p).area
    unfolding update_area
    update_area-IsTight c cs p = record {
      max_lat =
          foldl-Attains _ (λ a. a.max_lat) refl (λ a d e. cc) (λ a d. max_of_choice a.max_lat d.1) c
            cs;
      max_lon =
          foldl-Attains _ (λ a. a.max_lon) refl (λ a d e. cc) (λ a d. max_of_choice a.max_lon d.0) c
            cs;
      min_lat =
          foldl-Attains _ (λ a. a.min_lat) refl (λ a d e. cc) (λ a d. min_of_choice a.min_lat d.1) c
            cs;
      min_lon =
          foldl-Attains _ (λ a. a.min_lon) refl (λ a d e. cc) (λ a d. min_of_choice a.min_lon d.0) c
            cs;
    }
