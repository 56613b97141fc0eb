-- ===== src/HttpApi/Router.antt =====
-- crates/http-api/src/lib.rs: AppState and build_router. Matching a path to a route is axum's, a
-- parameter here; so is the decoding of the query and of the headers, of which a request has the result.
pub mod Documents
pub mod Presentation
pub mod Testbed
mod Tests
use federated_catalog_rs.Prelude.{
  ℕ, String, ◌≡◌, ◌≢◌, Option, none, some, List, [], ◌∷◌, Result, ok, err,
}
use federated_catalog_rs.Text.{◌+++◌}
use federated_catalog_rs.Text.Splitting.{Lacks}
use mathlib.Core.List.{Memᴰ}
use federated_catalog_rs.Json.{Value, obj, arr, string}
use federated_catalog_rs.Prelude.{map}
use federated_catalog_rs.Platform.{Platform, Method, http_get, http_post, Response}
use federated_catalog_rs.Store.{CatalogCache}
use federated_catalog_rs.Dcp.Holder.{HolderIdentity}
use federated_catalog_rs.HttpApi.Wire.Encoding.{
  catalog_value, dataset_value, catalog_error_value, versions_value, catalog_list_value,
}
use federated_catalog_rs.HttpApi.Auth.{
  Body, empty_body, health_body, catalog_list, error_body, versions, dsp_catalog_body,
  dsp_dataset_body, catalog_error_body, document, presentation_body, Reply, reply, panicked,
  disabled, DspAuthConfig,
}
use federated_catalog_rs.HttpApi.Handlers.{
  health, dspace_version, get_catalog, catalog_request, get_dsp_dataset, own_did_document_route,
  holder_did_document_route, holder_presentation_query_route,
}

module _ (P : Platform) where
  pub record AppState : Type 1 where
    pub cache : CatalogCache
    pub dsp_auth : DspAuthConfig P
    pub holder : Option (HolderIdentity P)

  -- `DspAuthConfig::default`
  abbrev pub default_auth : DspAuthConfig P
  default_auth = record { mode = disabled; catalog_access = λ token. none; dcp = none }

  -- `AppState::new`
  abbrev pub app_state : CatalogCache → AppState
  app_state c = record { cache = c; dsp_auth = default_auth; holder = none }

  abbrev pub with_dsp_auth : DspAuthConfig P → AppState → AppState
  with_dsp_auth auth state = record state { dsp_auth = auth }

  abbrev pub with_holder : Option (HolderIdentity P) → AppState → AppState
  with_holder h state = record state { holder = h }

-- The handlers that the router refers to
pub data Endpoint : Type 0 where
  health_endpoint get_catalog_endpoint dspace_version_endpoint catalog_request_endpoint : Endpoint
  get_dsp_dataset_endpoint own_did_document_endpoint holder_did_document_endpoint : Endpoint
  holder_presentation_query_endpoint : Endpoint

pub record Route : Type 0 where
  pub method : Method
  pub pattern' : String
  pub endpoint : Endpoint

abbrev pub get_route : String → Endpoint → Route
get_route path e = record { method = http_get; pattern' = path; endpoint = e }

abbrev pub post_route : String → Endpoint → Route
post_route path e = record { method = http_post; pattern' = path; endpoint = e }

abbrev pub build_router : List Route
build_router =
    get_route "/health" health_endpoint
    ∷ get_route "/catalog" get_catalog_endpoint
    ∷ get_route "/.well-known/dspace-version" dspace_version_endpoint
    ∷ post_route "/dsp/catalog/request" catalog_request_endpoint
    ∷ get_route "/dsp/catalog/datasets/{id}" get_dsp_dataset_endpoint
    ∷ get_route "/dsp/did.json" own_did_document_endpoint
    ∷ get_route "/dsp/holder/did.json" holder_did_document_endpoint
    ∷ post_route "/dsp/holder/presentations/query" holder_presentation_query_endpoint
    ∷ []

-- What becomes of a request: a handler with what its path captures, or axum's own answer
pub data Dispatch : Type 0 where
  matched : Endpoint → (id : String) → Dispatch
  unmatched : (status : ℕ) → Dispatch

-- axum's matching of the routes
abbrev pub Dispatcher : Type 0
Dispatcher = List Route → Method → String → Dispatch

-- What is relied on: on these routes, a path without captures is matched literally, and `{id}` stands
-- for one segment. (A segment with a `%` would be decoded.)
pub record IsRouting (dispatch : Dispatcher) : Type 0 where
  pub literal :
      (r : Route)
      → Memᴰ r build_router
      → Lacks b'{' r.pattern'
      → dispatch build_router r.method r.pattern' ≡ matched r.endpoint ""
  pub captured :
      (c : String)
      → (c ≢ "")
      → Lacks b'/' c
      → Lacks b'%' c
      → dispatch build_router http_get ("/dsp/catalog/datasets/" +++ c)
        ≡ matched get_dsp_dataset_endpoint c

-- A request: `node_id` is the query's, if it has one
pub record HttpRequest : Type 0 where
  pub method : Method
  pub path : String
  pub node_id : Option String
  pub authorization : Option String

module _ (P : Platform) (dispatch : Dispatcher) (app : AppState P) where
  open P use {World}

  abbrev pub call : Dispatch → HttpRequest → app.cache.State → World → Reply × World
  call (matched health_endpoint id) r state world = (health, world)
  call (matched get_catalog_endpoint id) r state world =
      (get_catalog app.cache r.node_id state, world)
  call (matched dspace_version_endpoint id) r state world = (dspace_version, world)
  call (matched catalog_request_endpoint id) r state world =
      catalog_request P app.cache app.dsp_auth r.authorization state world
  call (matched get_dsp_dataset_endpoint id) r state world =
      get_dsp_dataset P app.cache app.dsp_auth r.authorization id state world
  call (matched own_did_document_endpoint id) r state world =
      (own_did_document_route P app.dsp_auth, world)
  call (matched holder_did_document_endpoint id) r state world =
      (holder_did_document_route P app.holder, world)
  call (matched holder_presentation_query_endpoint id) r state world =
      holder_presentation_query_route P app.holder r.authorization world
  call (unmatched status) r state world = (reply status empty_body, world)

  -- A request through the router
  unfoldable pub serve : HttpRequest → app.cache.State → World → Reply × World
  serve r state world = call (dispatch build_router r.method r.path) r state world

-- `HealthResponse`, `ErrorResponse` and `PresentationResponseMessage`
abbrev health_value : String → Value
health_value status = obj (("status", string status) ∷ [])

abbrev error_value : String → Value
error_value e = obj (("error", string e) ∷ [])

abbrev presentation_value : List String → Value
presentation_value vps = obj (("presentation", arr (map string vps)) ∷ [])

-- The JSON of a body, if it has any
abbrev pub body_value : Body → Option Value
body_value empty_body = none
body_value (health_body status) = some (health_value status)
body_value (catalog_list cs) = some (catalog_list_value cs)
body_value (error_body e) = some (error_value e)
body_value (versions vs) = some (versions_value vs)
body_value (dsp_catalog_body c) = some (catalog_value c)
body_value (dsp_dataset_body d) = some (dataset_value d)
body_value (catalog_error_body e) = some (catalog_error_value e)
body_value (document v) = some v
body_value (presentation_body vps) = some (presentation_value vps)

-- A response that has this status and this body, if any
abbrev pub HasBody : Option Value → Response → Type 0
HasBody none response = Unit
HasBody (some v) response = response.json ≡ ok v

-- What a client receives of a reply that reaches it; a handler that panics closes the connection.
abbrev pub Delivers : Reply → Result Response String → Type 0
Delivers (reply status body) r =
    (response : Response) × (r ≡ ok response)
    × (response.status ≡ status)
    × HasBody (body_value body) response
Delivers panicked r = (e : String) × (r ≡ err e)
