-- ===== src/Controller/Fresh.antt =====
-- What `recomputeDownloadUrl` and `execute` of js/app-ctrl.js take from the boxes.
use ais_store.Prelude.{Bool, true, some, [], ◌∷◌, ◌++◌, ◌≡◌, refl, ap, append_assoc}
use ais_store.Prelude.Int.{ℤ}
use ais_store.Text.{Text}
use ais_store.Number.{Number}
use ais_store.Params.{Params, current_version}
use ais_store.Facet.{FilterBox, update_source_filter, update_target_filter, update_message_filter}
use ais_store.Facet.Source.{update_source_filter_lem}
use ais_store.Facet.Target.{update_target_filter_lem}
use ais_store.Facet.Message.{update_message_filter_lem}
use ais_store.Url.{update_download_url}
use ais_store.Service.{Storage, get_search_params, save_search_params, client_id, execute_url}
use ais_store.Service.Saving.{get_search_params-save_search_params}
use ais_store.Controller.{
  Page, World, request, notify, update_url, update_source, update_target, update_message,
  recompute_download_url, send, execute,
}

module _ {W : Type 0} where
  -- The parameters that the three boxes give.
  abbrev pub read_boxes : FilterBox → FilterBox → FilterBox → Params W → Params W
  read_boxes s t m p = update_message_filter m (update_target_filter t (update_source_filter s p))

  -- Reading the boxes forgets an earlier reading.
  pub read_boxes_again :
      (s t m s' t' m' : FilterBox) (p : Params W)
      → read_boxes s t m (read_boxes s' t' m' p) ≡ read_boxes s t m p
  read_boxes_again s t m s' t' m' p =
      simp (update_source_filter_lem, update_target_filter_lem, update_message_filter_lem)

-- The parameters of the query: those of the page, with what the boxes hold.
abbrev pub query_params : {W : Type 0} → Page W → Params W
query_params c = read_boxes c.source_filter c.target_filter c.message_filter c.params

module _ {W : Type 0} ⦃n : Number W⦄ (w : World W) where
  -- However the boxes were read before, and whatever URL was left, the query is computed anew from
  -- the boxes as they stand.
  pub recompute_download_url_fresh :
      (c : Page W) (s t m : FilterBox) (url : Text)
      → recompute_download_url w
          (record c { params = read_boxes s t m c.params; download_url = url })
        ≡ recompute_download_url w c
  unfolding recompute_download_url update_source update_target update_message update_url
  recompute_download_url_fresh c s t m url =
      ap (λ p. record c { params = p; download_url = update_download_url w.moment p })
        (read_boxes_again c.source_filter c.target_filter c.message_filter s t m c.params)

  -- The request of `execute`.
  abbrev pub request_url : Bool → Page W → Text × Storage
  request_url async c =
      execute_url w.browser (update_download_url w.moment (query_params c)) async c.storage

  pub execute-effects :
      (c : Page W) (async : Bool)
      → (execute w async c).effects
        ≡ c.effects ++ request (request_url async c).0 ∷ notify async ∷ []
  unfolding execute send recompute_download_url update_source update_target update_message
      update_url
  execute-effects c async = append_assoc c.effects (request _ ∷ []) (notify async ∷ [])

  pub execute-storage :
      (c : Page W) (async : Bool)
      → (execute w async c).storage
        ≡ save_search_params w.browser (query_params c) (client_id w.browser c.storage).1
  unfolding execute send recompute_download_url update_source update_target update_message
      update_url execute_url
  execute-storage c async = refl

  -- `execute` sends one request, with the query of the boxes as they stand, and then notifies; and
  -- where JSON writes the parameters of that query as a text and reads that text back, the storage
  -- takes the text, and the parameters have the current version, the page that is opened next
  -- starts with them.
  pub execute_lem :
      (c : Page W) (async : Bool) (now : ℤ) (text : Text)
      → (query_params c).version ≡ current_version
      → w.browser.stringify (query_params c) ≡ some text
      → w.browser.parse text ≡ some (query_params c)
      → w.browser.accepts text ≡ true
      → let url = update_download_url w.moment (query_params c) in
        ((execute w async c).effects
          ≡ c.effects ++ request (execute_url w.browser url async c.storage).0 ∷ notify async ∷ [])
        × ((execute w async c).params ≡ query_params c)
        × (get_search_params w.browser w.moment now (execute w async c).storage ≡ query_params c)
  unfolding execute send recompute_download_url update_source update_target update_message
      update_url
  execute_lem c async now text v e reads a = (
    execute-effects c async,
    refl,
    get_search_params-save_search_params w.browser w.moment now _ _ text v e reads a,
  )
