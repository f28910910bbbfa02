-- ===== src/Results.antt =====
-- `AisResultsCtrl` of js/app-ctrl.js: the list of downloads, and the colour of its badge.
pub mod Badge
pub mod Session
use ais_store.Prelude.{
  Bool, true, false, not, Option, none, some, List, [], ◌∷◌, ◌++◌, if◌then◌else◌, foldl,
}
use ais_store.Text.{Text}
use ais_store.Service.{
  Storage, Browser, client_id, list_files_url, delete_files_url, delete_file_url, open_file_url,
}

-- A file as the backend lists it.
pub record RepoFile : Type 0 where
  pub path : Text
  pub complete : Bool

pub data Colour : Type 0 where
  blue red : Colour

pub record Results : Type 0 where
  pub files : List RepoFile
  pub badge_color : Colour
  pub client_id : Text
  pub storage : Storage
  -- the requests that were sent, and the windows that were opened
  pub sent : List Text
  pub opened : List Text
  pub errors : List Text

-- The answer of the backend to one request: a body, or an error.
pub data Answer (A : Type 0) : Type 0 where
  success : A → Answer A
  error : Text → Answer A

badge_step : Colour → RepoFile → Colour
badge_step color file = if not file.complete then red else color

-- The callbacks of `listFiles`.
unfoldable pub show_files : Answer (List RepoFile) → Results → Results
unfolding badge_step
show_files (success files) r = record r { files = files; badge_color = foldl badge_step blue files }
show_files (error err) r = record r { errors = r.errors ++ err ∷ [] }

module _ {W : Type 0} (b : Browser W) where
  -- The request of `updateFiles`.
  unfoldable pub request_files : Results → Results
  request_files r =
      let (url, storage) = list_files_url b r.storage in
      record r { storage = storage; sent = r.sent ++ url ∷ [] }

  -- `openFile`
  unfoldable pub open_file : RepoFile → Results → Results
  open_file file r = record r { opened = r.opened ++ open_file_url file.path ∷ [] }

  -- The requests of `deleteFile` and `deleteFiles`.
  unfoldable pub request_delete : RepoFile → Results → Results
  request_delete file r = record r { sent = r.sent ++ delete_file_url file.path ∷ [] }

  unfoldable pub request_delete_all : Results → Results
  request_delete_all r =
      let (url, storage) = delete_files_url b r.storage in
      record r { storage = storage; sent = r.sent ++ url ∷ [] }

  -- The controller's start, up to its first request.
  unfoldable pub opened_results : Storage → Results
  opened_results storage =
      let (id, s) = client_id b storage in
      record {
        files = [];
        badge_color = blue;
        client_id = id;
        storage = s;
        sent = [];
        opened = [];
        errors = [];
      }
