-- ===== src/Controller/Session/Lasting.antt =====
-- What a session of the search page leaves to the page that is opened after it.
use ais_store.Prelude.{Bool, true, some, List, [], ◌∷◌, ◌≡◌, ◌∙◌}
use ais_store.Prelude.Int.{ℤ}
use ais_store.Text.{Text}
use ais_store.Number.{Number}
use ais_store.Service.{Storage}
use ais_store.Controller.{World, request, notify, execute}
use ais_store.Controller.Fresh.{query_params, request_url}
use ais_store.Controller.Reopened.{IsRead, reopened, execute-reopened}
use ais_store.Controller.Session.{Event, run}
use ais_store.Controller.Session.Sound.{query_params-version, foldl-step-IsSound}

module _ {W : Type 0} ⦃n : Number W⦄ (w : World W) where
  -- The query of a session survives the page. After any session that begins with `init` and in which
  -- the boxes exist and are, in the end, as VisualSearch would read them from their texts, so that no input
  -- waits to be committed: where JSON writes the parameters of the query as a text and reads that
  -- text back, and the storage takes it, the page that is opened after `execute` sends, when its
  -- boxes are filled and `execute` is called there, exactly the request that the first page would
  -- send again, with the same client id.
  pub execute-session :
      (now : ℤ) (storage : Storage) (events : List (Event W)) (async : Bool) (later : ℤ)
      (text : Text)
      → (run w now storage events).filled ≡ true
      → IsRead w (run w now storage events).page.source_filter
      → IsRead w (run w now storage events).page.target_filter
      → IsRead w (run w now storage events).page.message_filter
      → w.browser.stringify (query_params (run w now storage events).page) ≡ some text
      → w.browser.parse text ≡ some (query_params (run w now storage events).page)
      → w.browser.accepts text ≡ true
      → (again : Bool)
      → (execute w again (reopened w (run w now storage events).page async later)).effects
        ≡ request (request_url w again (run w now storage events).page).0 ∷ notify again ∷ []
  execute-session now storage events async later text filled source target message writes reads
        takes =
      let s = run w now storage events in
      execute-reopened w s.page async later text source target message
        (query_params-version s.page ∙ (foldl-step-IsSound w now storage events).version) writes
        reads takes
