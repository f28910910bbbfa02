-- ===== src/Text/Separated.antt =====
-- A text that grows by parts, each behind a separator, as the downloader builds its filter and its
-- query.
use ais_store.Prelude.{List, [], ◌∷◌, ◌++◌, ◌≡◌, refl, sym, ap, append_assoc, append-nil}
use ais_store.Text.Basic.{Text, join}

-- Each part behind the separator.
unfoldable pub prefixed : Text → List Text → Text
prefixed sep [] = []
prefixed sep (t ∷ ts) = sep ++ (t ++ prefixed sep ts)

-- `url` is `base`, then the parts.
abbrev pub Shows : Text → Text → Text → List Text → Type 0
Shows base sep url parts = url ≡ base ++ prefixed sep parts

pub Shows-nil : (sep : Text) → Shows [] sep [] []
unfolding prefixed
Shows-nil sep = refl

pub Shows-base : (base sep : Text) → Shows base sep base []
unfolding prefixed
Shows-base base sep = sym (append-nil base)

module _ (base sep : Text) where
  pub prefixed-concat :
      (ts : List Text) (t : Text) → prefixed sep (ts ++ t ∷ []) ≡ prefixed sep ts ++ (sep ++ t)
  unfolding prefixed
  prefixed-concat [] t = simp append-nil
  prefixed-concat (s ∷ ts) t = simp (prefixed-concat ts t, append_assoc)

  -- One more part.
  pub Shows-concat :
      (url t : Text) (ts : List Text)
      → Shows base sep url ts
      → Shows base sep (url ++ (sep ++ t)) (ts ++ t ∷ [])
  Shows-concat url t ts e = rw (e, prefixed-concat ts t) (append_assoc base _ _)

  -- Behind the first part the parts stand as `join` puts them.
  pub append-prefixed : (t : Text) (ts : List Text) → t ++ prefixed sep ts ≡ join sep (t ∷ ts)
  unfolding prefixed join
  append-prefixed t [] = append-nil t
  append-prefixed t (s ∷ ts) = ap (λ u. t ++ (sep ++ u)) (append-prefixed s ts)
