-- ===== src/Service/Requests.antt =====
-- The parameters of the request that `execute` of js/app-service.js sends.
use ais_store.Prelude.{
  Bool, true, false, [], ◌∷◌, ◌++◌, ◌≡◌, ◌≢◌, refl, arith, append_assoc, All-append,
}
use ais_store.Text.{Text, codes, join, split, IsFree}
use ais_store.Text.Split.{split-join}
use ais_store.Uri.{encode_uri_component}
use ais_store.Uri.Safe.{encode_uri_component-IsUriChar, IsFree-of_IsUriChar}
use ais_store.Service.{Storage, Browser, client_id, bool_text, execute_url}

literals :
    IsFree b'&' (codes "/downloader/query/execute/")
    × IsFree b'&' (codes "?async=")
    × IsFree b'&' (codes "params=")
    × IsFree b'&' (codes "true")
    × IsFree b'&' (codes "false")
    × (codes "&params=" ≡ b'&' ∷ codes "params=")
unfolding codes
literals = (omega arith, omega arith, omega arith, omega arith, omega arith, refl)

NoAmp-append : (s t : Text) → IsFree b'&' s → IsFree b'&' t → IsFree b'&' (s ++ t)
NoAmp-append = All-append (λ c. c ≢ b'&')

regroup : (s t u v w : Text) → s ++ (t ++ (u ++ (v ++ w))) ≡ (s ++ (t ++ (u ++ v))) ++ w
regroup s t u v w = simp append_assoc

module _ {W : Type 0} (b : Browser W) where
  bool_text-IsFree : (async : Bool) → IsFree b'&' (bool_text b async)
  bool_text-IsFree true = literals.3
  bool_text-IsFree false = literals.4

  -- If the client id holds no `&`, the request of `execute` has exactly two parameters: the flag
  -- behind the path, and the whole query, encoded, whatever `&`s the query itself holds.
  pub split-execute_url :
      (query : Text) (async : Bool) (s : Storage)
      → IsFree b'&' (client_id b s).0
      → split b'&' (execute_url b query async s).0
        ≡ (codes "/downloader/query/execute/"
            ++ ((client_id b s).0 ++ (codes "?async=" ++ bool_text b async)))
          ∷ (codes "params=" ++ encode_uri_component query)
          ∷ []
  unfolding execute_url join
  split-execute_url query async s h =
      let behind_path = NoAmp-append _ _ h (NoAmp-append _ _ literals.1 (bool_text-IsFree async)) in
      let first = NoAmp-append _ _ literals.0 behind_path in
      let encoded = IsFree-of_IsUriChar _ (encode_uri_component-IsUriChar query) in
      rw
        (
          literals.5,
          regroup (codes "/downloader/query/execute/") (client_id b s).0 (codes "?async=")
              (bool_text b async),
        )
        (split-join b'&' _ _ (first, (NoAmp-append _ _ literals.2 encoded, tt)))
