-- ===== src/Lib.antt =====
-- The web client of the AIS downloader, under ais-store-web/src/main/webapp/downloader/js: the page
-- on which a user describes a query for AIS data, the text of that query, the requests to the
-- backend, and the list of the files that it produces.
--
-- The parts, and the files that model them:
-- - Params: the search parameters, the object that `clearParams` of app-service.js builds; a field
--   that may be undefined is an Option.
-- - Facet: `updateSourceFilter`, `updateTargetFilter` and `updateMessageFilter` of app-ctrl.js, which
--   read the facets of a filter box into the parameters (`update_source_filter`, …).
-- - Area, Interval: `updateArea`, `clearArea`, `areaDefined` and `validateTimeInterval` of app-ctrl.js.
-- - Url: `updateDownloadUrl` of app-ctrl.js, as `update_download_url`; each `add_…` is one stretch of
--   it. Url/Clauses and Url/Segments describe the text a second time, as lists.
-- - BaseData: the tables of base-data.js, and what the boxes offer of them (BaseData/Offered).
-- - Service: `AisQueryService` of app-service.js: the local storage is the record Storage, handed on
--   from call to call, and a request is its URL.
-- - Controller: `AisQueryCtrl` of app-ctrl.js: Page is its scope, a handler is a function from Page to
--   Page, and what it does outside is appended to a list of effects. A handler reads the boxes by
--   Facet, builds the query by Url, and sends and saves it by Service.
--   Controller/Digest has the watches of the page: `start_changed`, `end_changed` and
--   `format_changed` are their handlers, Call is the step relation of single calls in any order,
--   `pass` the calls in the order of Angular's loop. Controller/Outcome is about `execute` as a whole,
--   Controller/Reopened about the page that is opened after it. Controller/Session is a whole session
--   from `init` on: the page before and after its boxes are filled, the user, the timeouts, and the
--   answers to `execute` in any order. Controller/Live puts the two together, with a digest after each
--   event.
-- - Results: `AisResultsCtrl` of app-ctrl.js, with the answers of the backend as arguments. In
--   Results/Session the requests are pending until they are answered, in any order.
-- - Validation: the directive `filterValidate` of app-directives.js; its timeouts fire and its
--   requests are answered in any order.
-- - AreaMap: the directive `aisMap` of app-directives.js. AreaMap/Watching has its two watches and
--   what the user does on the map, the button of partials/area-map.html included; a digest is two
--   passes over the watches.
-- - Picker: the directive `psDatetimePicker` of app-directives.js, a date of the page and the widget
--   that picks it; Picker/Sessions has what happens to them.
-- - FileSize: the filter `bytes` of app-filter.js.
-- - Position: the functions of position.js; latitude and longitude are two values of the record Axis,
--   since their functions differ in the numbers and letters that it holds. Position/Field is
--   `positionDirective` of app-directives.js.
-- - Prelude, Text, Uri, Number: lists and integers; texts as lists of code points with the functions
--   of JavaScript that the code calls; `encodeURIComponent` and its inverse (Uri/Decode); numbers and
--   dates.
-- - Tests: runs of the definitions, and the theorems at concrete inputs.
--
-- What is an argument: the operations on floating point numbers (Number, Float, Sizes), the
-- moment library (Moment), Angular's comparison of areas (`same`), the date-time widget
-- (Widget), the text and the facets that VisualSearch holds in a box (World, FilterBox), JSON,
-- the refusals of the storage and the random draws (Browser; the storage is taken to have room
-- for the client id, and each random draw is another one), the projections of OpenLayers
-- (Projection), and the answers of the backend. A theorem that relies on one of them says so in
-- a hypothesis (`IsExact`, `IsOrdered`, `PrintsNoAmp`, …). Dates are whole milliseconds. The
-- loops of the code go over lists, so do the definitions, but for the one that pads the minutes
-- of a position: `pad` takes a number of rounds, three are enough for every text that has a
-- point, and no number is for one that has none.
--
-- What is not modelled: the declaration of the Angular module (app.js); the widgets, layers and
-- controls of the libraries; the copies of libraries under ext; and the Java parts of the
-- repository.
pub mod Prelude
pub mod Text
pub mod Uri
pub mod Number
pub mod Params
pub mod Facet
pub mod Area
pub mod Interval
pub mod Url
pub mod BaseData
pub mod Service
pub mod Controller
pub mod Results
pub mod Validation
pub mod AreaMap
pub mod Position
pub mod Picker
pub mod FileSize
pub mod Tests
