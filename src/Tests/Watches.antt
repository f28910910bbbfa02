-- ===== src/Tests/Watches.antt =====
-- The watches of the page, of the map and of the date picker.
use ais_store.Prelude.{
  ℕ, ◌≤◌, Bool, true, false, ◌&&◌, Option, none, some, List, [], ◌∷◌, ◌≡◌, refl, arith, foldl, ◌==◌,
}
use ais_store.Prelude.Int.{pos}
use ais_store.Number.Whole.{whole, whole_dates-IsExact, whole-IsOrdered}
use ais_store.Params.{Area}
use ais_store.Text.{codes}
use ais_store.Controller.{Page, copy}
use ais_store.Controller.Digest.{Watched, Calls, done, more, by_start, start_changed}
use ais_store.Controller.Digest.Bound.{Calls-le}
use ais_store.Controller.Digest.Passes
use ais_store.Controller.Digest.Passes.{opened_page, foldl-turn-IsSettled}
use ais_store.Area.{area_defined, max_of, min_of}
use ais_store.AreaMap.{remove_area, Projection, area_changed, add_feature}
use ais_store.AreaMap.Watching
use ais_store.AreaMap.Watching.{Gesture, draw, toggle, edit, remove}
use ais_store.AreaMap.Watching.Settling.{IsSame, IsDisplayed}
use ais_store.AreaMap.Watching.Displayed.{IsWaiting, foldl-turn-IsDisplayed}
use ais_store.Picker
use ais_store.Picker.{Widget}
use ais_store.Picker.Sessions
use ais_store.Picker.Sessions.{Event, pick, empty, change, linked, expect, Holds, foldl-turn-Holds}
use ais_store.Tests.Samples.{fresh, world, page}

-- The page opens with dates that are out of order, and the watch on the start is called first.
abbrev crossed_page : Page ℕ
crossed_page = record page { params = record fresh { start_date = pos 9000000; end_date = pos 0 } }

abbrev unseen : Watched ℕ
unseen = opened_page crossed_page

first-Calls : Calls world unseen 1 (start_changed world unseen)
first-Calls = more done (by_start refl)

Calls-le_example : 1 ≤ 4
Calls-le_example = Calls-le world whole_dates-IsExact 1 first-Calls

abbrev happenings : List (Page ℕ → Page ℕ)
happenings = (λ c. record c { params = record c.params { end_date = pos 0 } }) ∷ copy world ∷ []

foldl-turn-IsSettled_example :
    Passes.IsSettled
      (foldl (Passes.turn world) (Passes.turn world (opened_page crossed_page) (λ d. d)) happenings)
foldl-turn-IsSettled_example =
    foldl-turn-IsSettled world whole_dates-IsExact crossed_page happenings

-- Areas of whole numbers, compared by their bounds.
abbrev same_bound : Option ℕ → Option ℕ → Bool
same_bound none none = true
same_bound (some a) (some b) = a == b
same_bound _ _ = false

abbrev same_area : Area ℕ → Area ℕ → Bool
same_area a b =
    same_bound a.max_lat b.max_lat
    && same_bound a.max_lon b.max_lon
    && same_bound a.min_lat b.min_lat
    && same_bound a.min_lon b.min_lon

same_bound-eq : (a b : Option ℕ) → same_bound a b ≡ true → a ≡ b
same_bound-eq none none h = refl
same_bound-eq none (some b) h = cc
same_bound-eq (some a) none h = cc
same_bound-eq (some a) (some b) h = ground arith

same_bound_refl : (a : Option ℕ) → same_bound a a ≡ true
same_bound_refl none = refl
same_bound_refl (some a) = ground arith

same_area-IsSame : IsSame same_area
same_area-IsSame = record {
  equal = λ a b h. ground (
    arith,
    same_bound-eq a.max_lat b.max_lat,
    same_bound-eq a.max_lon b.max_lon,
    same_bound-eq a.min_lat b.min_lat,
    same_bound-eq a.min_lon b.min_lon,
  );
  itself = λ a. ground (
    arith,
    same_bound_refl a.max_lat,
    same_bound_refl a.max_lon,
    same_bound_refl a.min_lat,
    same_bound_refl a.min_lon,
  );
}

abbrev flat : Projection ℕ
flat = record { to_map = λ c. c; from_map = λ c. c }

abbrev area : Area ℕ
area = record { max_lat = some 58; max_lon = some 13; min_lat = some 55; min_lon = some 8 }

-- The button is pressed and a box is drawn, then the area is edited and removed.
abbrev gestures : List (Gesture ℕ)
gestures =
    toggle true
    ∷ draw ((9, 56) ∷ (10, 57) ∷ [])
    ∷ edit (record area { max_lat = some 60 })
    ∷ remove
    ∷ []

abbrev shown_area : List (Gesture ℕ) → Watching.Watched ℕ
shown_area =
    foldl (Watching.turn flat same_area)
      (Watching.digest flat same_area (Watching.link flat same_area area))

foldl-turn-IsDisplayed_example :
    IsWaiting flat whole-IsOrdered (shown_area gestures)
    × IsDisplayed flat whole-IsOrdered (Watching.digest flat same_area (shown_area gestures))
foldl-turn-IsDisplayed_example =
    foldl-turn-IsDisplayed flat whole-IsOrdered same_area same_area-IsSame area gestures

-- The button removes the area, so the box that is drawn then is the new area, and drawing is over.
drawn_run :
    let s = shown_area (toggle true ∷ draw ((9, 56) ∷ (10, 57) ∷ []) ∷ []) in
    (s.map.area
      ≡ record { max_lat = some 57; max_lon = some 10; min_lat = some 56; min_lon = some 9 })
    × (s.map.box_active ≡ false)
    × (s.control ≡ false)
unfolding Watching.turn Watching.digest Watching.link area_changed add_feature remove_area
    area_defined max_of min_of
drawn_run = (refl, refl, refl)

abbrev widget : Widget
widget = record { set = λ old new. some new; fires = λ old new. true; print = λ d. codes "date" }

abbrev events : List Event
events = pick (pos 600000) ∷ empty ∷ change (pos 1200000) ∷ []

foldl-turn-Holds_example :
    Holds widget
      (foldl (Sessions.turn widget) (Picker.watch widget (linked (pos 60000))) events)
      (foldl expect (pos 60000, true) events)
foldl-turn-Holds_example =
    foldl-turn-Holds widget (λ old d. refl) (pos 60000) events refl (refl, (tt, (refl, tt)))

-- Emptying the widget leaves the date of the page, and throws.
empty_run :
    (foldl (Sessions.turn widget) (Picker.watch widget (linked (pos 60000))) (empty ∷ []))
    ≡ record {
      date = some (pos 60000);
      picker_date = none;
      text = codes "date";
      seen = some (some (pos 60000));
      thrown = 1;
    }
unfolding Sessions.turn Picker.watch Picker.dp_change
empty_run = refl
