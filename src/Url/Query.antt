-- ===== src/Url/Query.antt =====
-- `updateDownloadUrl` of js/app-ctrl.js against the description in Url/Segments.antt.
use ais_store.Prelude.{
  String, Bool, true, false, not, Option, none, some, List, [], ◌∷◌, ◌++◌, ◌▷◌, map, foldl, length,
  drop, if◌then◌else◌, ltb-zero-suc, ◌≡◌, refl, ◌↔◌, ◌∙◌, append_assoc, append-nil, inl, inr,
  Option-cases, when,
}
use mathlib.Core.List.{map-append}
use ais_store.Text.{Text, codes, join, text_eq, non_empty, split, replace, trim}
use ais_store.Text.Separated.{Shows, Shows-base, Shows-concat, append-prefixed}
use ais_store.Number.{Number, Moment}
use ais_store.Params.{Params, Area}
use ais_store.Area.{truthy, area_defined}
use ais_store.Url.{
  comma, simple_filter, add_simple_filter, add_token, add_mmsi, add_filter, add_output, add_header,
  add_table, interval, add_box, add_number, update_download_url,
}
use ais_store.Url.Clauses.{and, clauses, simple_filter_lem}
use ais_store.Url.Segments.{
  amp, non_empties, mmsi_tokens, mmsi_segment, mmsi_segments, simple_segments, filter_segments,
  output_segments, table_segments, corners, box_segments, number_segments, segments,
}

-- The codes of the literals begin with `&`.
amp_keys :
    (codes "&filter=" ≡ amp ++ codes "filter=")
    × (codes "&mmsi=" ≡ amp ++ codes "mmsi=")
    × (codes "&box=" ≡ amp ++ codes "box=")
    × (codes "&output=" ≡ amp ++ codes "output=")
    × (codes "&columns=" ≡ amp ++ codes "columns=")
    × (codes "&separator=" ≡ amp ++ codes "separator=")
    × (codes "&noHeader" ≡ amp ++ codes "noHeader")
    × (codes "&limit=" ≡ amp ++ codes "limit=")
    × (codes "&minDistance=" ≡ amp ++ codes "minDistance=")
    × (codes "&minDuration=P0Y0M0DT0H0M" ≡ amp ++ codes "minDuration=P0Y0M0DT0H0M")
    × (codes "&duplicateWindow=" ≡ amp ++ codes "duplicateWindow=")
unfolding codes
amp_keys = (refl, refl, refl, refl, refl, refl, refl, refl, refl, refl, refl)

module _ (base url : Text) (ts : List Text) (shown : Shows base amp url ts) where
  -- One more segment, whose text in the code is `key`.
  segment-Shows :
      (key name x : Text)
      → key ≡ amp ++ name
      → Shows base amp (url ++ (key ++ x)) (ts ++ (name ++ x) ∷ [])
  segment-Shows key name x e = rw (e, append_assoc amp) (Shows-concat base amp url _ ts shown)

  nothing-Shows : Shows base amp url (ts ++ [])
  nothing-Shows = rw append-nil shown

  add_token-Shows :
      (t : Text)
      → Shows base amp (add_token url t) (ts ++ map mmsi_segment (when (non_empty t) (t ∷ [])))
  unfolding add_token
  add_token-Shows [] = nothing-Shows
  add_token-Shows (c ∷ s) = segment-Shows _ _ (trim (c ∷ s)) amp_keys.1

module _ (base : Text) where
  foldl-add_token-Shows :
      (parts : List Text) (url : Text) (ts : List Text)
      → Shows base amp url ts
      → Shows base amp (foldl add_token url parts) (ts ++ map mmsi_segment (non_empties parts))
  foldl-add_token-Shows [] url ts h = rw append-nil h
  foldl-add_token-Shows (t ∷ parts) url ts h =
      rw (map-append mmsi_segment, ← append_assoc ts)
        (foldl-add_token-Shows parts _ _ (add_token-Shows base url ts h t))

append-append :
    (ts : List Text) (a b : Text) (rest : List Text)
    → ((ts ++ a ∷ []) ++ b ∷ []) ++ rest ≡ ts ++ a ∷ b ∷ rest
append-append ts a b rest = simp append_assoc

if-Shows :
    (base u v : Text) (ts us vs : List Text) (b : Bool)
    → Shows base amp u (ts ++ us)
    → Shows base amp v (ts ++ vs)
    → Shows base amp (if b then u else v) (ts ++ (if b then us else vs))
if-Shows base u v ts us vs true h k = h
if-Shows base u v ts us vs false h k = k

module _ (base url : Text) (ts : List Text) (shown : Shows base amp url ts) where
  when-Shows :
      (b : Bool) (key name x : Text)
      → key ≡ amp ++ name
      → Shows base amp (if b then url ++ (key ++ x) else url) (ts ++ when b ((name ++ x) ∷ []))
  when-Shows true key name x e = segment-Shows base url ts shown key name x e
  when-Shows false key name x e = nothing-Shows base url ts shown

  add_simple_filter-Shows :
      (cs : List Text) (filter : Text)
      → drop 3 filter ≡ join and cs
      → (filter ≡ []) ↔ (cs ≡ [])
      → Shows base amp (add_simple_filter filter url) (ts ++ simple_segments cs)
  unfolding add_simple_filter simple_segments
  add_simple_filter-Shows [] filter e same = rw (same.1 refl) (nothing-Shows base url ts shown)
  add_simple_filter-Shows (c ∷ cs) [] e same = cc (same.0 refl)
  add_simple_filter-Shows (c ∷ cs) (x ∷ filter) e same =
      rw (ltb-zero-suc (length filter), e) (segment-Shows base url ts shown _ _ _ amp_keys.0)

  add_mmsi-Shows :
      (mmsi : Option Text) → Shows base amp (add_mmsi mmsi url) (ts ++ mmsi_segments mmsi)
  unfolding add_mmsi mmsi_segments mmsi_tokens split replace
  add_mmsi-Shows none = nothing-Shows base url ts shown
  add_mmsi-Shows (some []) = nothing-Shows base url ts shown
  add_mmsi-Shows (some (c ∷ s)) =
      foldl-add_token-Shows base (split b' ' (replace b',' b' ' (c ∷ s))) url ts shown

  -- The end of the table segments, which has no value.
  header-Shows :
      (b : Bool)
      → Shows base amp
          (if b then url ++ codes "&noHeader" else url)
          (ts ++ when b (codes "noHeader" ∷ []))
  header-Shows true = rw amp_keys.6 (Shows-concat base amp url _ ts shown)
  header-Shows false = nothing-Shows base url ts shown

module _ {W : Type 0} (base url : Text) (ts : List Text) (shown : Shows base amp url ts) where
  add_filter-Shows : (p : Params W) → Shows base amp (add_filter p url) (ts ++ filter_segments p)
  unfolding add_filter filter_segments
  add_filter-Shows p =
      let (text, empty) = simple_filter_lem p in
      if-Shows base _ _ ts _ _ p.filter_type.simple
        (add_simple_filter-Shows base url ts shown (clauses p) (simple_filter p) text empty)
        (when-Shows base url ts shown _ _ _ _ amp_keys.0)

  add_output-Shows : (p : Params W) → Shows base amp (add_output p url) (ts ++ output_segments p)
  unfolding add_output output_segments
  add_output-Shows p = when-Shows base url ts shown _ _ _ p.output_format amp_keys.3

  add_table-Shows : (p : Params W) → Shows base amp (add_table p url) (ts ++ table_segments p)
  unfolding add_table table_segments add_header
  add_table-Shows p =
      let columns =
        segment-Shows base url ts shown _ _ (join (codes ";") p.output_table_fields) amp_keys.4 in
      let separator = segment-Shows base _ _ columns _ _ p.output_table_separator amp_keys.5 in
      if-Shows base _ _ ts _ [] (text_eq p.output_format (codes "table"))
        (rw (append-append ts) at (header-Shows base _ _ separator (not p.output_table_header)))
        (nothing-Shows base url ts shown)

module _ {W : Type 0} ⦃n : Number W⦄ (base url : Text) (ts : List Text)
    (shown : Shows base amp url ts) where
  add_box-Shows : (a : Area W) → Shows base amp (add_box a url) (ts ++ box_segments a)
  unfolding add_box box_segments join
  add_box-Shows a = elim (Option-cases (area_defined a)) [
    | inl e ↦ rw (e, add_box, box_segments) (nothing-Shows base url ts shown)
    | inr (box, e) ↦
        rw (e, add_box, box_segments)
          (segment-Shows base url ts shown _ _ (join comma (corners box)) amp_keys.2)
  ]

  add_number-Shows :
      (key name : String) (value : Option W) (unit : String)
      → codes key ≡ amp ++ codes name
      → Shows base amp (add_number key value unit url) (ts ++ number_segments name value unit)
  unfolding add_number number_segments
  add_number-Shows key name value unit e = elim (Option-cases (truthy value)) [
    | inl none_there ↦
        rw (none_there, add_number, number_segments) (nothing-Shows base url ts shown)
    | inr (x, there) ↦
        rw (there, add_number, number_segments) (segment-Shows base url ts shown _ _ _ e)
  ]

module _ {W : Type 0} ⦃n : Number W⦄ where
  -- The query is its segments, in order, with `&` between them: the interval, then the filter of
  -- the tab that is shown where it is not empty, an `mmsi` for each part of the MMSI field that is
  -- not empty, the box where all four bounds are truthy, the output format unless it is raw, the
  -- columns, separator and header flag of a table, and each truthy limit.
  pub update_download_url_lem :
      (m : Moment) (p : Params W) → update_download_url m p ≡ join amp (interval m p ∷ segments m p)
  unfolding update_download_url segments
  update_download_url_lem m p =
      let base = interval m p in
      Shows-base base amp
      ▷ (λ h. add_filter-Shows base _ _ h p)
      ▷ (λ h. add_mmsi-Shows base _ _ h p.mmsi)
      ▷ (λ h. add_box-Shows base _ _ h p.area)
      ▷ (λ h. add_output-Shows base _ _ h p)
      ▷ (λ h. add_table-Shows base _ _ h p)
      ▷ (λ h. add_number-Shows base _ _ h _ "limit=" p.limit "" amp_keys.7)
      ▷ (λ h. add_number-Shows base _ _ h _ "minDistance=" p.min_distance "" amp_keys.8)
      ▷ (λ h.
          add_number-Shows base _ _ h _ "minDuration=P0Y0M0DT0H0M" p.min_duration "S" amp_keys.9)
      ▷ (λ h. add_number-Shows base _ _ h _ "duplicateWindow=" p.duplicate_window "" amp_keys.10)
      ▷ (λ h. h ∙ append-prefixed base amp base _)
