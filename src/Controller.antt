-- ===== src/Controller.antt =====
-- `AisQueryCtrl` of js/app-ctrl.js: the state of the search page, and its handlers. The filter boxes
-- are VisualSearch's; what they read from a text is an argument.
pub mod Fresh
pub mod Outcome
pub mod Reopened
pub mod Digest
pub mod Session
pub mod Live
use ais_store.Prelude.{
  ℕ, zero, suc, Bool, true, false, not, Option, none, some, List, [], ◌∷◌, ◌++◌, if◌then◌else◌, ◌▷◌,
}
use ais_store.Prelude.Int.{ℤ}
use ais_store.Text.{Text, codes}
use ais_store.Number.{Number, Moment}
use ais_store.Params.{Params, clear_params, use_advanced_filter}
use ais_store.Facet.{
  FilterBox, Facet, update_source_filter, update_target_filter, update_message_filter,
}
use ais_store.Interval.{validate_time_interval}
use ais_store.Area.{update_area}
use ais_store.Url.{update_download_url}
use ais_store.Service
use ais_store.Service.{Storage, Browser, save_search_params, get_search_params, execute_url}

-- What the page does to the outside, in order.
pub data Effect : Type 0 where
  -- `$http.get`
  request : Text → Effect
  -- `growlNotifications.add`, for a query that runs asynchronously or not
  notify : Bool → Effect
  -- `window.open`, `window.prompt` and the reload of the page
  open_window : Text → Effect
  prompt : Text → Effect
  reload : Effect

pub record Page (W : Type 0) : Type 0 where
  pub params : Params W
  pub source_filter : FilterBox
  pub target_filter : FilterBox
  pub message_filter : FilterBox
  pub download_url : Text
  pub download_disabled : Bool
  -- the timeouts that will enable the buttons again
  pub timeouts : ℕ
  pub storage : Storage
  pub effects : List Effect

-- The surroundings of the page.
pub record World (W : Type 0) : Type 0 where
  pub moment : Moment
  pub browser : Browser W
  -- what VisualSearch holds in a box after `value(text)`
  pub read : Text → FilterBox

module _ {W : Type 0} ⦃n : Number W⦄ (w : World W) where
  abbrev pub box_of : Text → FilterBox
  box_of text = w.read text

  -- `updateDownloadUrl`
  unfoldable pub update_url : Page W → Page W
  update_url c = record c { download_url = update_download_url w.moment c.params }

  abbrev when_asked : Bool → Page W → Page W
  when_asked true c = update_url c
  when_asked false c = c

  -- The three filter handlers, with their argument `updateDownloadUrl`.
  unfoldable pub update_source : Bool → Page W → Page W
  unfolding update_url
  update_source asked c =
      record c { params = update_source_filter c.source_filter c.params } ▷ when_asked asked

  unfoldable pub update_target : Bool → Page W → Page W
  unfolding update_url
  update_target asked c =
      record c { params = update_target_filter c.target_filter c.params } ▷ when_asked asked

  unfoldable pub update_message : Bool → Page W → Page W
  unfolding update_url
  update_message asked c =
      record c { params = update_message_filter c.message_filter c.params } ▷ when_asked asked

  -- `validateTimeInterval`
  unfoldable pub validate_interval : Bool → Page W → Page W
  unfolding update_url
  validate_interval start_date_updated c =
      update_url (record c { params = validate_time_interval w.moment start_date_updated c.params })

  -- `recomputeDownloadUrl`
  unfoldable pub recompute_download_url : Page W → Page W
  unfolding update_source update_target update_message update_url
  recompute_download_url c =
      c ▷ update_source false ▷ update_target false ▷ update_message false ▷ update_url

  abbrev effect : Effect → Page W → Page W
  effect e c = record c { effects = c.effects ++ e ∷ [] }

  -- The request of `AisQueryService.execute`.
  send : Bool → Page W → Page W
  send async c =
      let (url, storage) = execute_url w.browser c.download_url async c.storage in
      effect (request url) (record c { storage = storage })

  -- `execute`
  unfoldable pub execute : Bool → Page W → Page W
  unfolding recompute_download_url send
  execute async c =
      recompute_download_url c
      ▷ (λ d. record d { download_disabled = true })
      ▷ send async
      ▷ (λ d. record d { storage = save_search_params w.browser d.params d.storage })
      ▷ effect (notify async)
      ▷ (λ d. record d { timeouts = suc d.timeouts })

  -- The success callback of `execute`: the path of the resulting file.
  unfoldable pub execute_success : Bool → Text → Page W → Page W
  execute_success async path c =
      if not async then effect (open_window (Service.open_file_url path)) c else c

  -- The two seconds of one timeout have passed.
  fire : ℕ → Page W → Page W
  fire zero c = c
  fire (suc k) c = record c { download_disabled = false; timeouts = k }

  unfoldable pub timeout : Page W → Page W
  unfolding fire
  timeout c = fire c.timeouts c

  -- The boxes take their texts from the parameters, at the end of `clear` and of the timeout of `init`.
  unfoldable pub fill_boxes : Page W → Page W
  fill_boxes c = record c {
    source_filter = box_of c.params.source_txt;
    target_filter = box_of c.params.target_txt;
    message_filter = box_of c.params.message_txt;
  }

  -- `clear`, at the time `now`
  unfoldable pub clear : ℤ → Page W → Page W
  unfolding fill_boxes
  clear now c = fill_boxes (record c { params = clear_params w.moment now })

  -- `reset` of the controller
  unfoldable pub reset : Page W → Page W
  reset c = effect reload (record c { storage = Service.reset c.storage })

  abbrev pub query_url : Text
  query_url = codes "https://ais2.e-navigation.net/aisview/rest/store/query?"

  -- `openInAisStore` and `copy`
  unfoldable pub open_in_ais_store : Page W → Page W
  unfolding recompute_download_url
  open_in_ais_store c =
      let d = recompute_download_url c in effect (open_window (query_url ++ d.download_url)) d

  unfoldable pub copy : Page W → Page W
  unfolding recompute_download_url
  copy c = let d = recompute_download_url c in effect (prompt (query_url ++ d.download_url)) d

  -- `init` up to its timeout. The boxes do not exist yet, and what stands for them here is not read.
  unfoldable pub load : ℤ → Storage → Page W
  load now s = record {
    params = get_search_params w.browser w.moment now s;
    source_filter = record { text = []; facets = [] };
    target_filter = record { text = []; facets = [] };
    message_filter = record { text = []; facets = [] };
    download_url = [];
    download_disabled = false;
    timeouts = 0;
    storage = s;
    effects = [];
  }

  -- `init`, when its timeout has filled the boxes and nothing else has happened
  unfoldable pub init : ℤ → Storage → Page W
  unfolding fill_boxes load
  init now s = fill_boxes (load now s)
