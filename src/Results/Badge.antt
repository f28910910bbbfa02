-- ===== src/Results/Badge.antt =====
-- The colour of the badge of `AisResultsCtrl`, against the list that it shows.
use ais_store.Prelude.{not, List, [], ◌∷◌, if◌then◌else◌, foldl, ◌≡◌, refl, arith, any}
use ais_store.Results.{
  RepoFile, Colour, blue, red, Results, Answer, success, error, badge_step, show_files,
}

abbrev pub badge_of : List RepoFile → Colour
badge_of files = if any (λ f. not f.complete) files then red else blue

foldl-red : (files : List RepoFile) → foldl badge_step red files ≡ red
unfolding badge_step
foldl-red [] = refl
foldl-red (f ∷ fs) = ground (arith, foldl-red fs)

foldl-badge_step : (files : List RepoFile) → foldl badge_step blue files ≡ badge_of files
unfolding badge_step
foldl-badge_step [] = refl
foldl-badge_step (f ∷ fs) = ground (arith, foldl-red fs, foldl-badge_step fs)

abbrev pub IsShown : Results → Type 0
IsShown r = r.badge_color ≡ badge_of r.files

pub show_files-IsShown :
    (answer : Answer (List RepoFile)) (r : Results) → IsShown r → IsShown (show_files answer r)
unfolding show_files
show_files-IsShown (success files) r h = foldl-badge_step files
show_files-IsShown (error err) r h = h
