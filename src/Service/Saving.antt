-- ===== src/Service/Saving.antt =====
-- `saveSearchParams` and `getSearchParams` of js/app-service.js together.
use ais_store.Prelude.{
  ℕ, true, false, [], ◌∷◌, ◌⊎◌, inl, inr, if◌then◌else◌, Option, none, some, ◌≡◌, refl, arith,
}
use ais_store.Prelude.Int.{ℤ}
use ais_store.Text.{Text}
use ais_store.Number.{Moment}
use ais_store.Params.{Params, current_version, clear_params}
use ais_store.Service.{
  client_id, Storage, Browser, stored, current, get_search_params, save_text, save_search_params,
}

module _ {W : Type 0} (b : Browser W) (m : Moment) (now : ℤ) where
  current-version :
      (fresh : Params W) (o : Option (Params W))
      → fresh.version ≡ current_version
      → (current b fresh o).version ≡ current_version
  unfolding current
  current-version fresh none e = e
  current-version fresh (some p) e = ground arith

  -- Whatever is stored, the parameters that come out have the current version.
  pub version-get_search_params :
      (s : Storage) → (get_search_params b m now s).version ≡ current_version
  unfolding get_search_params clear_params
  version-get_search_params s = current-version (clear_params m now) (stored b s.params) refl

  -- Parameters of the current version that were saved come back, where JSON reads their text back
  -- and the storage took it.
  pub get_search_params-save_search_params :
      (p : Params W) (s : Storage) (text : Text)
      → p.version ≡ current_version
      → b.stringify p ≡ some text
      → b.parse text ≡ some p
      → b.accepts text ≡ true
      → get_search_params b m now (save_search_params b p s) ≡ p
  unfolding get_search_params save_search_params
  get_search_params-save_search_params p s text v e reads a =
      rw (e, save_text, a) (rw (reads, current, v))

module _ {W : Type 0} (b : Browser W) where
  -- Saving the parameters leaves the client id.
  client_id-at :
      (id : Option Text) (drawn : ℕ) (params params' : Option Text)
      → (client_id b (record { params = params; client_id = id; drawn = drawn })).0
        ≡ (client_id b (record { params = params'; client_id = id; drawn = drawn })).0
  unfolding client_id
  client_id-at none drawn params params' = refl
  client_id-at (some []) drawn params params' = refl
  client_id-at (some (c ∷ s)) drawn params params' = refl

  client_id-save_text :
      (s : Storage) (text : Option Text) → (client_id b (save_text b s text)).0 ≡ (client_id b s).0
  unfolding save_text
  client_id-save_text s none = refl
  client_id-save_text s (some text) =
      elim (b.accepts text)
        as (λ x.
          (client_id b (if x then record s { params = some text } else s)).0 ≡ (client_id b s).0) [
            | true ↦ client_id-at s.client_id s.drawn (some text) s.params
            | false ↦ refl
          ]

  save_text-fails :
      (s : Storage) (o : Option Text)
      → (o ≡ none) ⊎ ((text : Text) × (o ≡ some text) × (b.accepts text ≡ false))
      → save_text b s o ≡ s
  unfolding save_text
  save_text-fails s o (inl e) = rw e refl
  save_text-fails s o (inr (text, e, h)) = rw e (rw h refl)

  pub client_id-save_search_params :
      (p : Params W) (s : Storage) → (client_id b (save_search_params b p s)).0 ≡ (client_id b s).0
  unfolding save_search_params
  client_id-save_search_params p s = client_id-save_text s (b.stringify p)

  -- Where JSON cannot write the parameters, or the storage refuses their text, it stays as it is.
  pub save_search_params_fails :
      (p : Params W) (s : Storage)
      → (b.stringify p ≡ none)
        ⊎ ((text : Text) × (b.stringify p ≡ some text) × (b.accepts text ≡ false))
      → save_search_params b p s ≡ s
  unfolding save_search_params
  save_search_params_fails p s = save_text-fails s (b.stringify p)
