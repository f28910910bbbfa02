-- ===== src/Controller/Outcome.antt =====
-- What `execute` of js/app-ctrl.js leads to: what the backend reads of its request, what happens
-- where the parameters cannot be saved, and which client the other requests name.
use ais_store.Prelude.{Bool, false, none, some, [], ◌∷◌, ◌++◌, ◌⊎◌, ◌≡◌, refl, ◌∙◌, ap, All}
use ais_store.Text.{Text, codes, split, IsFree}
use ais_store.Uri.{encode_uri_component}
use ais_store.Uri.Decode.{
  IsCodePoint, decode_uri_component, decode_uri_component-encode_uri_component,
}
use ais_store.Number.{Number}
use ais_store.Url.{interval, update_download_url}
use ais_store.Url.Segments.{segments}
use ais_store.Url.Parameters.{PrintsNoAmp, IsPlain, split-update_download_url}
use ais_store.Service.{
  Storage, truthy_text, client_id, bool_text, list_files_url, delete_files_url, execute_url,
}
use ais_store.Service.Saving.{client_id-save_search_params, save_search_params_fails}
use ais_store.Service.ClientId.{client_id_again, kept_id}
use ais_store.Service.Requests.{split-execute_url}
use ais_store.Controller.{Page, World, request, notify, execute}
use ais_store.Controller.Fresh.{query_params, request_url, execute-effects, execute-storage}

module _ {W : Type 0} ⦃n : Number W⦄ (w : World W) (c : Page W) (async : Bool) where
  -- If the libraries print no `&`, the texts of the query that are not encoded and the client id
  -- hold none, and the query consists of code points, then the backend reads the query as it is
  -- described: the request of `execute` has the flag and one parameter, which decodes to a text
  -- that has exactly the interval and the segments of the present boxes between its `&`s.
  pub execute-delivers :
      PrintsNoAmp W w.moment
      → IsPlain (query_params c)
      → IsFree b'&' (client_id w.browser c.storage).0
      → All IsCodePoint (update_download_url w.moment (query_params c))
      → (url value : Text) × ((execute w async c).effects
          ≡ c.effects ++ request url ∷ notify async ∷ [])
        × (split b'&' url
            ≡ (codes "/downloader/query/execute/"
                ++ ((client_id w.browser c.storage).0
                    ++ (codes "?async=" ++ bool_text w.browser async)))
              ∷ (codes "params=" ++ value)
              ∷ [])
        × (split b'&' (decode_uri_component value)
            ≡ interval w.moment (query_params c) ∷ segments w.moment (query_params c))
  execute-delivers prints plain id_free valid =
      let query = update_download_url w.moment (query_params c) in
      (
        (request_url w async c).0,
        encode_uri_component query,
        execute-effects w c async,
        split-execute_url w.browser query async c.storage id_free,
        ap (split b'&') (decode_uri_component-encode_uri_component query valid)
            ∙ split-update_download_url w.moment prints (query_params c) plain,
      )

  -- The request of `execute` for a client id.
  abbrev pub execute_with : Text → Text
  execute_with id =
      codes "/downloader/query/execute/"
      ++ (id
          ++ (codes "?async="
              ++ (bool_text w.browser async
                  ++ (codes "&params="
                      ++ encode_uri_component (update_download_url w.moment (query_params c))))))

  -- Where the storage has a client id, and JSON cannot write the parameters or the storage refuses
  -- their text, `execute` sends its request, with that id, and notifies all the same, and the
  -- storage stays as it was.
  pub execute_unsaved :
      (id : Text)
      → truthy_text c.storage.client_id ≡ some id
      → (w.browser.stringify (query_params c) ≡ none)
        ⊎ ((text : Text) × (w.browser.stringify (query_params c) ≡ some text)
            × (w.browser.accepts text ≡ false))
      → ((execute w async c).effects ≡ c.effects ++ request (execute_with id) ∷ notify async ∷ [])
        × ((execute w async c).storage ≡ c.storage)
  unfolding execute_url
  execute_unsaved id known fails =
      let kept = kept_id w.browser c.storage id known in
      (
        execute-effects w c async
            ∙ ap
                (λ (r : Text × Storage).
                  c.effects ++ request (execute_with r.0) ∷ notify async ∷ [])
                kept,
        execute-storage w c async
            ∙ save_search_params_fails w.browser (query_params c) _ fails
            ∙ ap (λ r. r.1) kept,
      )

  pub client_id-execute :
      (client_id w.browser (execute w async c).storage).0 ≡ (client_id w.browser c.storage).0
  client_id-execute =
      ap (λ s. (client_id w.browser s).0) (execute-storage w c async)
      ∙ client_id-save_search_params w.browser (query_params c) _
      ∙ ap (λ r. r.0) (client_id_again w.browser c.storage)

  -- Whether the parameters could be saved or not, the results page lists and deletes the files of
  -- the client for which `execute` has scheduled its query.
  pub execute_same_client :
      (id : Text) × (query : Text) × ((request_url w async c).0
        ≡ codes "/downloader/query/execute/" ++ (id ++ (codes "?async=" ++ query)))
      × ((list_files_url w.browser (execute w async c).storage).0
          ≡ codes "/downloader/query/list/" ++ id)
      × ((delete_files_url w.browser (execute w async c).storage).0
          ≡ codes "/downloader/query/delete-all/" ++ id)
  unfolding execute_url list_files_url delete_files_url
  execute_same_client = (
    (client_id w.browser c.storage).0,
    _,
    refl,
    ap (λ id. codes "/downloader/query/list/" ++ id) client_id-execute,
    ap (λ id. codes "/downloader/query/delete-all/" ++ id) client_id-execute,
  )
