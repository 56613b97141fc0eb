-- ===== src/Conformance/Requests.antt =====
-- What the unit tests of the HTTP API share, crates/http-api/src/lib.rs: applications, requests, and
-- what is read of a response. A body is taken as it is before it is serialized, or as its JSON.
use federated_catalog_rs.Prelude.{
  ℕ, String, Bool, Option, none, some, List, [], ◌∷◌, map, ok, err, eqb, ◌==◌, if◌then◌else◌, ◌>>=◌,
}
use federated_catalog_rs.Text.{◌+++◌}
use federated_catalog_rs.Json.{Value, obj, get_str, get_array, to_list}
use federated_catalog_rs.Platform.{Platform, http_get, http_post}
use federated_catalog_rs.Testbed.{testbed}
use federated_catalog_rs.Catalog.{Catalog, Dataset, catalog, node_id}
use federated_catalog_rs.Store.{StoreResult}
use federated_catalog_rs.Store.Memory
use federated_catalog_rs.Store.Memory.{InMemoryCatalogCache, memory}
use federated_catalog_rs.HttpApi.Wire.{DspCatalog, dsp_catalog, DspDataset}
use federated_catalog_rs.HttpApi.Auth.{
  Reply, reply, catalog_list, health_body, dsp_catalog_body, catalog_error_body, bearer,
  DspAuthConfig,
}
use federated_catalog_rs.HttpApi.Handlers.{seed_sample_catalog}
use federated_catalog_rs.HttpApi.Router.{
  AppState, app_state, with_dsp_auth, HttpRequest, serve, body_value,
}
use federated_catalog_rs.HttpApi.Router.Testbed.{dispatch}
use federated_catalog_rs.Conformance.Asserts.{panicked, Test, expect_some}

abbrev pub anywhere : Platform
anywhere = testbed "kid" (obj []) (obj [])

-- `test_state`, with the state of its cache
abbrev pub test_state : AppState anywhere
test_state = app_state anywhere memory

-- `upsert(..).await.unwrap()`
abbrev pub upserted : StoreResult (Unit {0}) × InMemoryCatalogCache → Test InMemoryCatalogCache
upserted (ok u, s) = ok s
upserted (err e, s) = err panicked

abbrev pub upsert : Catalog → InMemoryCatalogCache → Test InMemoryCatalogCache
upsert c s = upserted (Memory.upsert c s)

-- The cache of `seeded_dsp_state`, the same for every configuration
abbrev pub seeded : Test InMemoryCatalogCache
seeded = upserted (seed_sample_catalog memory Memory.new)

-- `collect` into a map: the last entry of a key stays
abbrev lookup_access : List (String × List String) → String → Option (List String)
lookup_access [] token = none
lookup_access ((t, ids) ∷ rest) token = elim (lookup_access rest token) [
  | some later ↦ some later
  | none ↦ if t == token then some ids else none
]

abbrev pub bearer_auth : List (String × List String) → DspAuthConfig anywhere
bearer_auth access = record { mode = bearer; catalog_access = lookup_access access; dcp = none }

abbrev pub dsp_state : DspAuthConfig anywhere → AppState anywhere
dsp_state auth = with_dsp_auth anywhere auth test_state

-- `Request::builder().uri(..)`, and with a bearer token
abbrev pub get_uri : String → Option String → HttpRequest
get_uri path node = record { method = http_get; path = path; node_id = node; authorization = none }

abbrev pub with_token : String → HttpRequest → HttpRequest
with_token token r = record r { authorization = some ("Bearer " +++ token) }

abbrev pub bearer_header : Option String → Option String
bearer_header none = none
bearer_header (some token) = some ("Bearer " +++ token)

abbrev pub post_catalog_request : Option String → HttpRequest
post_catalog_request bearer_token = record {
  method = http_post;
  path = "/dsp/catalog/request";
  node_id = none;
  authorization = bearer_header bearer_token;
}

-- `app.oneshot(..)` on the state `test_state().with_dsp_auth(auth)`, whose cache is in a state
abbrev pub oneshot : DspAuthConfig anywhere → HttpRequest → InMemoryCatalogCache → Reply
oneshot auth r s = (serve anywhere dispatch (dsp_state auth) r s 0).0

-- `response.status()`, and the body as one of its types
abbrev pub has_status : ℕ → Reply → Bool
has_status n (reply status body) = eqb status n
has_status n r = Bool.false

abbrev pub health_of : Reply → Test String
health_of (reply status (health_body s)) = ok s
health_of r = err panicked

abbrev pub catalogs_of : Reply → Test (List Catalog)
catalogs_of (reply status (catalog_list cs)) = ok cs
catalogs_of r = err panicked

abbrev pub error_code : Reply → Test String
error_code (reply status (catalog_error_body e)) = ok e.code
error_code r = err panicked

abbrev own_datasets : DspCatalog → List DspDataset
own_datasets (dsp_catalog _ _ _ _ datasets _ _) = datasets

-- The ids of the response's own datasets
abbrev pub dataset_ids : Reply → Test (List String)
dataset_ids (reply status (dsp_catalog_body c)) =
    ok (map (λ (d : DspDataset). d.id) (own_datasets c))
dataset_ids r = err panicked

abbrev pub json_of : Reply → Test Value
json_of (reply status body) = expect_some (body_value body)
json_of r = err panicked

-- `value[key].as_array().expect(..)`
abbrev pub array_of : String → Value → Test (List Value)
array_of key v = do items ← expect_some (get_array key v); ok (to_list items)

abbrev texts : String → List Value → Test (List String)
texts key [] = ok []
texts key (v ∷ vs) = do s ← expect_some (get_str key v); rest ← texts key vs; ok (s ∷ rest)

-- The ids of the datasets of one catalog of a response
abbrev pub ids_of : Value → Test (List String)
ids_of entry = do datasets ← array_of "dataset" entry; texts "@id" datasets

abbrev dataset : String → String → Dataset
dataset service id = record {
  id = id;
  properties = [];
  distributions = record { format = "application/json"; access_service = service } ∷ [];
}

abbrev node_catalog : String → String → List String → Catalog
node_catalog node id ids = record (catalog id (node_id node)) {
  participant_id = some ("did:example:" +++ node);
  datasets = map (dataset (node +++ "-data-service")) ids;
  data_services =
      record {
        id = node +++ "-data-service";
        endpoint_url = "https://" +++ node +++ ".example.org/dsp";
        endpoint_description = none;
      }
      ∷ [];
}

abbrev pub seed_two_node_catalog : InMemoryCatalogCache → Test InMemoryCatalogCache
seed_two_node_catalog cache = do
  s ← upsert (node_catalog "node-a" "catalog-a" ("A1" ∷ "A2" ∷ "A3" ∷ [])) cache
  upsert (node_catalog "node-b" "catalog-b" ("B1" ∷ "B2" ∷ "B3" ∷ "B4" ∷ "B5" ∷ "B6" ∷ "B7" ∷ [])) s
