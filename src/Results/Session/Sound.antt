-- ===== src/Results/Session/Sound.antt =====
-- What holds throughout a session of the results page.
use ais_store.Prelude.{
  ℕ, Option, none, some, List, [], ◌∷◌, ◌++◌, ◌≡◌, ◌⊎◌, inl, inr, refl, ◌∙◌, ap, foldl, All,
  All-append, get_elem?,
}
use ais_store.Text.{Text, codes}
use ais_store.Service.{
  Storage, Browser, client_id, list_files_url, delete_files_url, delete_file_url,
}
use ais_store.Service.ClientId.{client_id_again}
use ais_store.Results.{
  RepoFile, Results, Answer, success, error, show_files, request_files, open_file, request_delete,
  request_delete_all, opened_results,
}
use ais_store.Results.Badge.{IsShown, show_files-IsShown}
use ais_store.Results.Session.{
  Pending, listing, deletion, Session, Event, tick, view, delete, delete_all, answer, list_files,
  answered, step, begin, run,
}

-- A request for the files of a client, or for a file by its path.
abbrev pub IsOwn : Text → Text → Type 0
IsOwn id url =
    (url ≡ codes "/downloader/query/list/" ++ id)
    ⊎ ((url ≡ codes "/downloader/query/delete-all/" ++ id)
        ⊎ ((path : Text) × (url ≡ codes "/downloader/query/delete/" ++ path)))

module _ {W : Type 0} (b : Browser W) where
  -- The badge tells whether a file is incomplete, the client is the one of the storage, and all
  -- requests so far named it.
  pub record IsSound (r : Results) : Type 0 where
    pub badge : IsShown r
    pub client : (client_id b r.storage).0 ≡ r.client_id
    pub own : All (IsOwn r.client_id) r.sent

  request_files-IsSound : (r : Results) → IsSound r → IsSound (request_files b r)
  unfolding request_files list_files_url
  request_files-IsSound r h = record {
    badge = h.badge;
    client = ap (λ x. x.0) (client_id_again b r.storage) ∙ h.client;
    own =
        All-append (IsOwn r.client_id) r.sent (_ ∷ []) h.own
          (inl (ap (λ id. codes "/downloader/query/list/" ++ id) h.client), tt);
  }

  request_delete_all-IsSound : (r : Results) → IsSound r → IsSound (request_delete_all b r)
  unfolding request_delete_all delete_files_url
  request_delete_all-IsSound r h = record {
    badge = h.badge;
    client = ap (λ x. x.0) (client_id_again b r.storage) ∙ h.client;
    own =
        All-append (IsOwn r.client_id) r.sent (_ ∷ []) h.own
          (inr (inl (ap (λ id. codes "/downloader/query/delete-all/" ++ id) h.client)), tt);
  }

  request_delete-IsSound :
      (file : RepoFile) (r : Results) → IsSound r → IsSound (request_delete b file r)
  unfolding request_delete delete_file_url
  request_delete-IsSound file r h = record {
    badge = h.badge;
    client = h.client;
    own = All-append (IsOwn r.client_id) r.sent (_ ∷ []) h.own (inr (inr (file.path, refl)), tt);
  }

  show_files-IsSound :
      (reply : Answer (List RepoFile)) (r : Results) → IsSound r → IsSound (show_files reply r)
  unfolding show_files
  show_files-IsSound (success files) r h = record {
    badge = show_files-IsShown (success files) r h.badge;
    client = h.client;
    own = h.own;
  }
  show_files-IsSound (error err) r h = record { badge = h.badge; client = h.client; own = h.own }

  answered-IsSound :
      (k : ℕ) (reply : Answer (List RepoFile)) (o : Option Pending) (s : Session)
      → IsSound s.results
      → IsSound (answered b k reply o s).results
  unfolding answered list_files
  answered-IsSound k reply none s h = h
  answered-IsSound k reply (some listing) s h = show_files-IsSound reply s.results h
  answered-IsSound k reply (some deletion) s h = request_files-IsSound s.results h

  step-IsSound : (s : Session) (e : Event) → IsSound s.results → IsSound (step b s e).results
  unfolding step list_files open_file
  step-IsSound s tick h = request_files-IsSound s.results h
  step-IsSound s (view file) h = record { badge = h.badge; client = h.client; own = h.own }
  step-IsSound s (delete file) h = request_delete-IsSound file s.results h
  step-IsSound s delete_all h = request_delete_all-IsSound s.results h
  step-IsSound s (answer k reply) h = answered-IsSound k reply (get_elem? s.pending k) s h

  foldl-step :
      (events : List Event) (s : Session)
      → IsSound s.results
      → IsSound (foldl (step b) s events).results
  foldl-step [] s h = h
  foldl-step (e ∷ events) s h = foldl-step events (step b s e) (step-IsSound s e h)

  opened_results-IsSound : (storage : Storage) → IsSound (opened_results b storage)
  unfolding opened_results
  opened_results-IsSound storage = record {
    badge = refl;
    client = ap (λ x. x.0) (client_id_again b storage);
    own = tt;
  }

  -- From the start of the page on, whatever is requested and in whatever order the backend answers
  -- or fails, the badge is red if a file of the list is incomplete and blue if none is; the client
  -- of the storage stays the one that the page shows; and all requests named it, but for those that
  -- delete a file by its path.
  pub run-IsSound :
      (storage : Storage) (events : List Event) → IsSound (run b storage events).results
  unfolding begin list_files
  run-IsSound storage events =
      foldl-step events (begin b storage)
        (request_files-IsSound (opened_results b storage) (opened_results-IsSound storage))
