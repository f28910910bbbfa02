-- ===== src/Controller/Reopened.antt =====
-- The page of js/app-ctrl.js that is opened after `execute` has run on another one.
use ais_store.Prelude.{Bool, some, true, [], ◌∷◌, ◌≡◌, refl, ◌∙◌, ap}
use ais_store.Prelude.Int.{ℤ}
use ais_store.Text.{Text}
use ais_store.Number.{Number}
use ais_store.Params.{Params, current_version}
use ais_store.Facet.{FilterBox}
use ais_store.Facet.Source.{update_source_filter_lem}
use ais_store.Facet.Target.{update_target_filter_lem}
use ais_store.Facet.Message.{update_message_filter_lem}
use ais_store.Url.{update_download_url}
use ais_store.Service.{Storage, client_id, execute_url}
use ais_store.Controller.{Page, World, box_of, request, notify, execute, init}
use ais_store.Controller.Fresh.{
  read_boxes, read_boxes_again, query_params, request_url, execute-effects, execute_lem,
}
use ais_store.Controller.Outcome.{client_id-execute}

module _ {W : Type 0} where
  -- A reading of the boxes keeps their texts.
  read_boxes-texts :
      (s t m : FilterBox) (p : Params W)
      → ((read_boxes s t m p).source_txt ≡ s.text)
        × ((read_boxes s t m p).target_txt ≡ t.text)
        × ((read_boxes s t m p).message_txt ≡ m.text)
  read_boxes-texts s t m p = (
    simp (update_source_filter_lem, update_target_filter_lem, update_message_filter_lem),
    simp (update_source_filter_lem, update_target_filter_lem, update_message_filter_lem),
    simp (update_source_filter_lem, update_target_filter_lem, update_message_filter_lem),
  )

module _ {W : Type 0} ⦃n : Number W⦄ (w : World W) where
  -- The box is as VisualSearch would read it from its text: no input in it waits to be committed.
  abbrev pub IsRead : FilterBox → Type 0
  IsRead box = w.read box.text ≡ box

  box_of_text : (box : FilterBox) (text : Text) → IsRead box → text ≡ box.text → box_of w text ≡ box
  box_of_text box text h e = ap (box_of w) e ∙ h

  -- The request depends on the query and on the client id only.
  execute_url_same :
      (query : Text) (async : Bool) (s s' : Storage)
      → (client_id w.browser s).0 ≡ (client_id w.browser s').0
      → (execute_url w.browser query async s).0 ≡ (execute_url w.browser query async s').0
  unfolding execute_url
  execute_url_same query async s s' e = rw e refl

  -- The boxes as the page fills them from its parameters, read again.
  abbrev refilled : Params W → Params W
  refilled p = read_boxes (box_of w p.source_txt) (box_of w p.target_txt) (box_of w p.message_txt) p

  refilled-query_params :
      (c : Page W)
      → IsRead c.source_filter
      → IsRead c.target_filter
      → IsRead c.message_filter
      → refilled (query_params c) ≡ query_params c
  refilled-query_params c hs ht hm =
      let s = c.source_filter in
      let t = c.target_filter in
      let m = c.message_filter in
      let q = query_params c in
      let (es, et, em) = read_boxes-texts s t m c.params in
      ap (λ b. read_boxes b (box_of w q.target_txt) (box_of w q.message_txt) q)
        (box_of_text s q.source_txt hs es)
      ∙ ap (λ b. read_boxes s b (box_of w q.message_txt) q) (box_of_text t q.target_txt ht et)
      ∙ ap (λ b. read_boxes s t b q) (box_of_text m q.message_txt hm em)
      ∙ read_boxes_again s t m s t m c.params

  -- The page that is opened next.
  abbrev pub reopened : Page W → Bool → ℤ → Page W
  reopened c async now = init w now (execute w async c).storage

  -- A query survives the page. Where each box is as VisualSearch would read it from its text, JSON writes the parameters of the query as a text and reads that text back, the
  -- storage takes the text, and the parameters have the current version, then the page that is
  -- opened after `execute` sends, when its boxes are filled and `execute` is called there, exactly
  -- the request that the page before would send again.
  pub execute-reopened :
      (c : Page W) (async : Bool) (now : ℤ) (text : Text)
      → IsRead c.source_filter
      → IsRead c.target_filter
      → IsRead c.message_filter
      → (query_params c).version ≡ current_version
      → w.browser.stringify (query_params c) ≡ some text
      → w.browser.parse text ≡ some (query_params c)
      → w.browser.accepts text ≡ true
      → (again : Bool)
      → (execute w again (reopened c async now)).effects
        ≡ request (request_url w again c).0 ∷ notify again ∷ []
  unfolding init
  execute-reopened c async now text hs ht hm v e reads a again =
      let next = reopened c async now in
      let (_, _, loaded) = execute_lem w c async now text v e reads a in
      let query = ap refilled loaded ∙ refilled-query_params c hs ht hm in
      let same_url =
        ap (λ p. (execute_url w.browser (update_download_url w.moment p) again next.storage).0)
          query
        ∙ execute_url_same (update_download_url w.moment (query_params c)) again next.storage
            c.storage (client_id-execute w c async) in
      execute-effects w next again ∙ ap (λ url. request url ∷ notify again ∷ []) same_url
