-- ===== src/AreaMap/Watching/Displayed.antt =====
-- What the map of `aisMap` shows after any gestures of the user.
use ais_store.Prelude.{
  Bool, true, false, some, List, [], ◌∷◌, ◌++◌, ◌≡◌, refl, ◌∙◌, sym, ap, foldl, if◌then◌else◌,
}
use ais_store.Number.{Number}
use ais_store.Params.{Area, no_area}
use ais_store.Area.Bounds.{IsOrdered}
use ais_store.AreaMap.{
  Feature, Projection, add_feature, read_feature_geometry, feature_added, remove_area,
}
use ais_store.AreaMap.Watching.{
  Watched, Gesture, draw, toggle, edit, remove, digest, drawn, turn, link,
}
use ais_store.AreaMap.Watching.Shown.{Shows, add_feature-quiescent, add_feature-Shows}
use ais_store.AreaMap.Watching.Settling.{
  IsSame, IsReady, IsDisplayed, some-injective, digest-IsDisplayed,
}

module _ {W : Type 0} ⦃n : Number W⦄ (proj : Projection W) (o : IsOrdered W) where
  -- What holds between two gestures: the map shows the area that the watch has seen, and the control
  -- is as the other watch has left it.
  pub record IsWaiting (s : Watched W) : Type 0 where
    pub quiet : s.map.quiescent ≡ false
    pub active_known : s.seen_active ≡ some s.control
    pub area_known : s.seen_area ≡ some s.map.area
    pub shown : Shows proj o s.map

  controlled_of :
      (s : Watched W) → IsWaiting s → (b : Bool) → s.seen_active ≡ some b → s.control ≡ b
  controlled_of s h b e = some-injective (sym h.active_known ∙ e)

  IsWaiting-IsReady : (s : Watched W) → IsWaiting s → IsReady proj o s
  IsWaiting-IsReady s h = record {
    quiet = h.quiet;
    shown = λ _. h.shown;
    controlled = controlled_of s h;
  }

  -- An area that was seen is the one that is shown.
  with_area :
      (s : Watched W) (a : Area W)
      → IsWaiting s
      → s.seen_area ≡ some a
      → Shows proj o (record s.map { area = a })
  with_area s a h known =
      let kept : a ≡ s.map.area = some-injective (sym known ∙ h.area_known) in rw kept h.shown

  with_area-IsReady :
      (s : Watched W) (a : Area W)
      → IsWaiting s
      → IsReady proj o (record s { map = record s.map { area = a } })
  with_area-IsReady s a h = record {
    quiet = h.quiet;
    shown = with_area s a h;
    controlled = controlled_of s h;
  }

  read-IsReady :
      (s : Watched W) (vertices : Feature W)
      → IsWaiting s
      → let layer = record s.map { features = s.map.features ++ vertices ∷ [] } in
        IsReady proj o (record s { map = read_feature_geometry proj vertices layer })
  unfolding add_feature feature_added
  read-IsReady s vertices h = record {
    quiet = add_feature-quiescent proj o vertices s.map h.quiet;
    shown = λ known.
        add_feature-Shows proj o vertices s.map h.quiet h.shown
          (some-injective (sym known ∙ h.area_known));
    controlled = controlled_of s h;
  }

  IsDisplayed-IsWaiting : (s : Watched W) → IsDisplayed proj o s → IsWaiting s
  IsDisplayed-IsWaiting s d = record {
    quiet = d.quiet;
    active_known = d.active_known ∙ ap some (sym d.controlled);
    area_known = d.area_known;
    shown = d.shown;
  }

  if-IsWaiting :
      (b : Bool) (s t : Watched W) → IsWaiting s → IsWaiting t → IsWaiting (if b then s else t)
  if-IsWaiting true s t h k = h
  if-IsWaiting false s t h k = k

  module _ (same : Area W → Area W → Bool) (is_same : IsSame same) where
    digest-IsWaiting : (s : Watched W) → IsReady proj o s → IsWaiting (digest proj same s)
    digest-IsWaiting s r = IsDisplayed-IsWaiting _ (digest-IsDisplayed proj o same is_same s r)

    drawn-IsWaiting :
        (s : Watched W) (vertices : Feature W)
        → IsWaiting s
        → IsWaiting (drawn proj same vertices s)
    unfolding drawn
    drawn-IsWaiting s vertices h =
        let d = digest-IsWaiting _ (read-IsReady s vertices h) in
        record {
          quiet = d.quiet;
          active_known = d.active_known;
          area_known = d.area_known;
          shown = d.shown;
        }

    turn-IsWaiting : (s : Watched W) (g : Gesture W) → IsWaiting s → IsWaiting (turn proj same s g)
    unfolding turn remove_area
    turn-IsWaiting s (draw vertices) h = if-IsWaiting s.control _ s (drawn-IsWaiting s vertices h) h
    turn-IsWaiting s (toggle active) h =
        let removed = digest-IsWaiting _ (with_area-IsReady s no_area h) in
        digest-IsWaiting _ (record {
          quiet = removed.quiet;
          shown = λ _. removed.shown;
          controlled = controlled_of _ removed;
        })
    turn-IsWaiting s (edit area) h = digest-IsWaiting _ (with_area-IsReady s area h)
    turn-IsWaiting s remove h = digest-IsWaiting _ (with_area-IsReady s no_area h)

    foldl-turn :
        (gestures : List (Gesture W)) (s : Watched W)
        → IsWaiting s
        → IsWaiting (foldl (turn proj same) s gestures)
    foldl-turn [] s h = h
    foldl-turn (g ∷ gs) s h = foldl-turn gs (turn proj same s g) (turn-IsWaiting s g h)

    -- Where `Math.max` and `Math.min` give bounds in an order of the numbers, and Angular compares
    -- areas by their bounds, two passes over the watches are enough from the link of the directive
    -- on and after each gesture: after any gestures the map shows the feature of the area, if it is
    -- defined, and behind it only boxes that lie within the area; and after one more digest no
    -- watch has anything left to do, and the drawing control is active exactly if `boxActive` is
    -- set.
    pub foldl-turn-IsDisplayed :
        (area : Area W) (gestures : List (Gesture W))
        → let s = foldl (turn proj same) (digest proj same (link proj same area)) gestures in
          IsWaiting s × IsDisplayed proj o (digest proj same s)
    unfolding link
    foldl-turn-IsDisplayed area gestures =
        let start =
          digest-IsWaiting (link proj same area)
            (record { quiet = refl; shown = λ e. cc; controlled = λ b e. cc }) in
        let waiting = foldl-turn gestures _ start in
        (waiting, digest-IsDisplayed proj o same is_same _ (IsWaiting-IsReady _ waiting))
