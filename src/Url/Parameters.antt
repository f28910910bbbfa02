-- ===== src/Url/Parameters.antt =====
-- The query of `updateDownloadUrl` as a server reads it, which splits it at `&`.
use ais_store.Prelude.{
  ℕ, String, Bool, true, false, Option, none, some, List, [], ◌∷◌, ◌++◌, ◌▷◌, map, ◌≡◌, ◌≢◌, refl,
  arith, inl, inr, Option-cases, when, All, All-append, All-when, if◌then◌else◌,
}
use ais_store.Prelude.Int.{ℤ}
use ais_store.Text.{Text, codes, text_eq, split, IsFree}
use ais_store.Text.Split.{split-join, split-All, replace-All, join-All}
use ais_store.Text.Trim.{trim-All}
use ais_store.Uri.Safe.{encode_uri_component-IsUriChar, IsFree-of_IsUriChar}
use ais_store.Number.{Number, Moment}
use ais_store.Params.{Params, Area}
use ais_store.Area.{truthy, area_defined}
use ais_store.Url.{comma, interval, update_download_url}
use ais_store.Url.Clauses.{clauses}
use ais_store.Url.Segments.{
  amp, non_empties, mmsi_tokens, mmsi_segment, mmsi_segments, filter_segment, simple_segments,
  filter_segments, output_segments, table_segments, corners, box_segments, number_segments,
  segments,
}
use ais_store.Url.Query.{update_download_url_lem}

abbrev pub NoAmp : Text → Type 0
NoAmp = IsFree b'&'

-- What is documented of the numbers and dates that the query prints: digits, points and signs,
-- and the characters of the date format.
pub record PrintsNoAmp (W : Type 0) ⦃n : Number W⦄ (m : Moment) : Type 0 where
  pub format_utc : (date : ℤ) → NoAmp (m.format_utc date)
  pub to_fixed : (digits : ℕ) (x : W) → NoAmp (n.to_fixed digits x)
  pub to_text : (x : W) → NoAmp (n.to_text x)

abbrev pub NoAmp? : Option Text → Type 0
NoAmp? none = Unit
NoAmp? (some s) = NoAmp s

-- The parameters that the query holds unencoded.
pub record IsPlain {W : Type 0} (p : Params W) : Type 0 where
  pub mmsi : NoAmp? p.mmsi
  pub output_format : NoAmp p.output_format
  pub output_table_fields : All NoAmp p.output_table_fields
  pub output_table_separator : NoAmp p.output_table_separator

literals :
    NoAmp (codes "interval=")
    × NoAmp (codes "Z/")
    × NoAmp (codes "Z")
    × NoAmp (codes "filter=")
    × NoAmp (codes "mmsi=")
    × NoAmp (codes "box=")
    × NoAmp (codes "output=")
    × NoAmp (codes "columns=")
    × NoAmp (codes "separator=")
    × NoAmp (codes "noHeader")
    × NoAmp (codes "limit=")
    × NoAmp (codes "minDistance=")
    × NoAmp (codes "minDuration=P0Y0M0DT0H0M")
    × NoAmp (codes "S")
    × NoAmp (codes "duplicateWindow=")
    × NoAmp (codes ",")
    × NoAmp (codes ";")
    × NoAmp (codes "")
unfolding codes
literals = omega arith

NoAmp-append : (s t : Text) → NoAmp s → NoAmp t → NoAmp (s ++ t)
NoAmp-append = All-append (λ c. c ≢ b'&')

amp_code : amp ≡ b'&' ∷ []
unfolding codes
amp_code = refl

All-one : (b : Bool) (s : Text) → NoAmp s → All NoAmp (when b (s ∷ []))
All-one b s h = All-when NoAmp b (s ∷ []) (λ _. (h, tt))

filter_segment-NoAmp : (filter : Text) → NoAmp (filter_segment filter)
filter_segment-NoAmp filter =
    NoAmp-append _ _ literals.3 (IsFree-of_IsUriChar _ (encode_uri_component-IsUriChar filter))

simple_segments-NoAmp : (cs : List Text) → All NoAmp (simple_segments cs)
unfolding simple_segments
simple_segments-NoAmp [] = tt
simple_segments-NoAmp (c ∷ cs) = (filter_segment-NoAmp _, tt)

tokens-NoAmp : (ts : List Text) → All NoAmp ts → All NoAmp (map mmsi_segment (non_empties ts))
tokens-NoAmp [] h = tt
tokens-NoAmp ([] ∷ ts) (_, h) = tokens-NoAmp ts h
tokens-NoAmp ((c ∷ s) ∷ ts) (t, h) =
    (NoAmp-append _ _ literals.4 (trim-All (λ x. x ≢ b'&') (c ∷ s) t), tokens-NoAmp ts h)

mmsi_segments-NoAmp : (mmsi : Option Text) → NoAmp? mmsi → All NoAmp (mmsi_segments mmsi)
unfolding mmsi_segments mmsi_tokens
mmsi_segments-NoAmp none h = tt
mmsi_segments-NoAmp (some s) h =
    let spaced = replace-All (λ x. x ≢ b'&') b',' b' ' s (omega arith) h in
    tokens-NoAmp _ (split-All (λ x. x ≢ b'&') b' ' _ spaced)

if-All :
    (b : Bool) (us vs : List Text) → All NoAmp us → All NoAmp vs → All NoAmp (if b then us else vs)
if-All true us vs h k = h
if-All false us vs h k = k

module _ {W : Type 0} (p : Params W) where
  filter_segments-NoAmp : All NoAmp (filter_segments p)
  unfolding filter_segments
  filter_segments-NoAmp =
      if-All p.filter_type.simple _ _ (simple_segments-NoAmp (clauses p))
        (All-one _ _ (filter_segment-NoAmp p.advanced_filter))

  output_segments-NoAmp : IsPlain p → All NoAmp (output_segments p)
  unfolding output_segments
  output_segments-NoAmp h = All-one _ _ (NoAmp-append _ _ literals.6 h.output_format)

  table_segments-NoAmp : IsPlain p → All NoAmp (table_segments p)
  unfolding table_segments
  table_segments-NoAmp h =
      let fields = join-All (λ x. x ≢ b'&') (codes ";") _ literals.16 h.output_table_fields in
      if-All (text_eq p.output_format (codes "table")) _ _
        (
          NoAmp-append _ _ literals.7 fields,
          (NoAmp-append _ _ literals.8 h.output_table_separator, All-one _ _ literals.9),
        )
        tt

module _ {W : Type 0} ⦃n : Number W⦄ (m : Moment) (prints : PrintsNoAmp W m) where
  box_segments-NoAmp : (a : Area W) → All NoAmp (box_segments a)
  unfolding box_segments
  box_segments-NoAmp a = elim (Option-cases (area_defined a)) [
    | inl e ↦ rw (e, box_segments) tt
    | inr (box, e) ↦
        rw (e, box_segments)
          (
            NoAmp-append _ _ literals.5 (
                join-All (λ x. x ≢ b'&') comma (corners box) literals.15
                  (
                    prints.to_fixed 3 _,
                    (prints.to_fixed 3 _, (prints.to_fixed 3 _, (prints.to_fixed 3 _, tt))),
                  )),
            tt,
          )
  ]

  number_segments-NoAmp :
      (name : String) (value : Option W) (unit : String)
      → NoAmp (codes name)
      → NoAmp (codes unit)
      → All NoAmp (number_segments name value unit)
  unfolding number_segments
  number_segments-NoAmp name value unit h k = elim (Option-cases (truthy value)) [
    | inl e ↦ rw (e, number_segments) tt
    | inr (x, e) ↦
        rw (e, number_segments) (NoAmp-append _ _ h (NoAmp-append _ _ (prints.to_text x) k), tt)
  ]

  interval-NoAmp : (p : Params W) → NoAmp (interval m p)
  unfolding interval
  interval-NoAmp p = NoAmp-append _ _ literals.0 (
      NoAmp-append _ _ (prints.format_utc p.start_date)
        (NoAmp-append _ _ literals.1 (NoAmp-append _ _ (prints.format_utc p.end_date) literals.2)))

  segments-NoAmp : (p : Params W) → IsPlain p → All NoAmp (segments m p)
  unfolding segments
  segments-NoAmp p h =
      filter_segments-NoAmp p
      ▷ (λ k. All-append NoAmp _ _ k (mmsi_segments-NoAmp p.mmsi h.mmsi))
      ▷ (λ k. All-append NoAmp _ _ k (box_segments-NoAmp p.area))
      ▷ (λ k. All-append NoAmp _ _ k (output_segments-NoAmp p h))
      ▷ (λ k. All-append NoAmp _ _ k (table_segments-NoAmp p h))
      ▷ (λ k. All-append NoAmp _ _ k (number_segments-NoAmp _ p.limit _ literals.10 literals.17))
      ▷ (λ k.
          All-append NoAmp _ _ k (number_segments-NoAmp _ p.min_distance _ literals.11 literals.17))
      ▷ (λ k.
          All-append NoAmp _ _ k (number_segments-NoAmp _ p.min_duration _ literals.12 literals.13))
      ▷ (λ k.
          All-append NoAmp _ _ k
            (number_segments-NoAmp _ p.duplicate_window _ literals.14 literals.17))

  -- If the libraries print no `&`, and the MMSI field, the output format, the table's columns and
  -- its separator hold none, then splitting the query at `&` gives exactly the interval and the
  -- segments, whatever texts the filters hold.
  pub split-update_download_url :
      (p : Params W)
      → IsPlain p
      → split b'&' (update_download_url m p) ≡ interval m p ∷ segments m p
  split-update_download_url p h =
      rw (update_download_url_lem m p, amp_code)
        (split-join b'&' (interval m p) (segments m p) (interval-NoAmp p, segments-NoAmp p h))
