-- ===== src/Conformance/Api.antt =====
-- The unit tests of the HTTP API, crates/http-api/src/lib.rs. `dispatch` stands for axum's routing.
use federated_catalog_rs.Prelude.{
  String, ◌≡◌, refl, none, some, [], ◌∷◌, map, ok, err, length, eqb, ◌==◌, ◌>>=◌, ◌>>◌,
}
use federated_catalog_rs.Text.{strip_prefix, trim}
use federated_catalog_rs.Text.Order.{str_leb}
use federated_catalog_rs.Sorting.{sort_by}
use federated_catalog_rs.Catalog.{Dataset, catalog, node_id}
use federated_catalog_rs.Store.{StoreResult, paginate}
use federated_catalog_rs.Store.Memory
use federated_catalog_rs.Store.Memory.{InMemoryCatalogCache, memory}
use federated_catalog_rs.Store.Oxigraph
use federated_catalog_rs.Store.Oxigraph.{oxigraph}
use federated_catalog_rs.Store.ListStore.{list_store}
use federated_catalog_rs.HttpApi.Wire.{
  dsp_dataset, placeholder_offer, new_urn_uuid, not_found, unauthorized,
}
use federated_catalog_rs.HttpApi.Auth.{
  bearer_token, unauthorized_response, authorize, visible_datasets, DspAuthConfig,
}
use federated_catalog_rs.HttpApi.Handlers
use federated_catalog_rs.HttpApi.Handlers.{seed_sample_catalog}
use federated_catalog_rs.HttpApi.Router.{AppState, app_state, HttpRequest, serve, default_auth}
use federated_catalog_rs.HttpApi.Router.Testbed.{dispatch}
use federated_catalog_rs.Conformance.Asserts.{
  panicked, Test, assert, unwrap, index, is_empty, same_texts, sorted,
}
use federated_catalog_rs.Conformance.Requests.{
  anywhere, upsert, seeded, bearer_auth, get_uri, with_token, post_catalog_request, has_status,
  health_of, catalogs_of, error_code, dataset_ids, oneshot,
}

abbrev open_access : DspAuthConfig anywhere
open_access = default_auth anywhere

unfoldable health_returns_ok : Test (Unit {0})
health_returns_ok = do
  let response = oneshot open_access (get_uri "/health" none) Memory.new
  assert (has_status 200 response)
  status ← health_of response
  assert (status == "ok")

unfoldable catalog_endpoint_returns_empty_list_when_cache_is_empty : Test (Unit {0})
catalog_endpoint_returns_empty_list_when_cache_is_empty = do
  let response = oneshot open_access (get_uri "/catalog" none) Memory.new
  assert (has_status 200 response)
  catalogs ← catalogs_of response
  assert (is_empty catalogs)

unfoldable catalog_endpoint_returns_upserted_catalog : Test (Unit {0})
catalog_endpoint_returns_upserted_catalog = do
  s ← upsert (catalog "cat-1" (node_id "node-1")) Memory.new
  let response = oneshot open_access (get_uri "/catalog" (some "node-1")) s
  assert (has_status 200 response)
  catalogs ← catalogs_of response
  assert (eqb (length catalogs) 1)
  first ← index 0 catalogs
  assert (first.id == "cat-1")

unfoldable catalog_endpoint_serves_seeded_sample_catalog : Test (Unit {0})
catalog_endpoint_serves_seeded_sample_catalog = do
  s ← seeded
  let response = oneshot open_access (get_uri "/catalog" (some "sample-participant")) s
  assert (has_status 200 response)
  catalogs ← catalogs_of response
  assert (eqb (length catalogs) 1)
  c ← index 0 catalogs
  assert (c.id == "sample-catalog")
  assert (c.origin_node.id == "sample-participant")
  assert (eqb (length c.datasets) 2)
  assert (same_texts (map (λ (d : Dataset). d.id) c.datasets) ("CAT0101" ∷ "CAT0102" ∷ []))
  assert (eqb (length c.data_services) 1)

abbrev graph_state : AppState anywhere
graph_state = app_state anywhere (oxigraph list_store)

abbrev seeded_graphs : StoreResult (Unit {0}) × list_store.GraphStore → Test list_store.GraphStore
seeded_graphs (ok u, store) = ok store
seeded_graphs (err e, store) = err panicked

unfoldable dsp_catalog_request_serves_data_from_the_oxigraph_backend : Test (Unit {0})
dsp_catalog_request_serves_data_from_the_oxigraph_backend = do
  store ← unwrap (Oxigraph.in_memory list_store)
  cache ← seeded_graphs (seed_sample_catalog (oxigraph list_store) store)
  let response = (serve anywhere dispatch graph_state (post_catalog_request none) cache 0).0
  assert (has_status 200 response)
  ids ← dataset_ids response
  assert (same_texts (sorted ids) ("CAT0101" ∷ "CAT0102" ∷ []))

unfoldable catalog_endpoint_filters_by_unknown_node_id : Test (Unit {0})
catalog_endpoint_filters_by_unknown_node_id = do
  s ← upsert (catalog "cat-1" (node_id "node-1")) Memory.new
  let response = oneshot open_access (get_uri "/catalog" (some "does-not-exist")) s
  assert (has_status 200 response)
  catalogs ← catalogs_of response
  assert (is_empty catalogs)

unfoldable dsp_catalog_request_disabled_mode_ignores_missing_auth_header : Test (Unit {0})
dsp_catalog_request_disabled_mode_ignores_missing_auth_header = do
  s ← seeded
  let response = oneshot open_access (post_catalog_request none) s
  assert (has_status 200 response)
  ids ← dataset_ids response
  assert (eqb (length ids) 2)

unfoldable dsp_catalog_request_bearer_mode_requires_auth_header : Test (Unit {0})
dsp_catalog_request_bearer_mode_requires_auth_header = do
  s ← seeded
  let response = oneshot (bearer_auth []) (post_catalog_request none) s
  assert (has_status 401 response)
  code ← error_code response
  assert (code == "UNAUTHORIZED")

unfoldable dsp_catalog_request_bearer_mode_denies_unknown_caller_by_default : Test (Unit {0})
dsp_catalog_request_bearer_mode_denies_unknown_caller_by_default = do
  s ← seeded
  let response = oneshot (bearer_auth []) (post_catalog_request (some "nobody-configured")) s
  assert (has_status 200 response)
  ids ← dataset_ids response
  assert (is_empty ids)

abbrev two_consumers : DspAuthConfig anywhere
two_consumers =
    bearer_auth
      (("consumer-a-token", "CAT0101" ∷ []) ∷ ("consumer-b-token", "CAT0101" ∷ "CAT0102" ∷ []) ∷ [])

unfoldable dsp_catalog_request_bearer_mode_filters_per_caller : Test (Unit {0})
dsp_catalog_request_bearer_mode_filters_per_caller = do
  s ← seeded
  let response_a = oneshot two_consumers (post_catalog_request (some "consumer-a-token")) s
  assert (has_status 200 response_a)
  ids_a ← dataset_ids response_a
  assert (same_texts ids_a ("CAT0101" ∷ []))
  let response_b = oneshot two_consumers (post_catalog_request (some "consumer-b-token")) s
  assert (has_status 200 response_b)
  ids_b ← dataset_ids response_b
  assert (same_texts (sorted ids_b) ("CAT0101" ∷ "CAT0102" ∷ []))

abbrev get_dataset : String → HttpRequest
get_dataset path = with_token "consumer-a-token" (get_uri path none)

unfoldable dsp_dataset_lookup_404s_for_a_dataset_that_exists_but_isnt_visible_to_caller :
    Test (Unit {0})
dsp_dataset_lookup_404s_for_a_dataset_that_exists_but_isnt_visible_to_caller = do
  s ← seeded
  let auth = bearer_auth (("consumer-a-token", "CAT0101" ∷ []) ∷ [])
  assert (has_status 200 (oneshot auth (get_dataset "/dsp/catalog/datasets/CAT0101") s))
  assert (has_status 404 (oneshot auth (get_dataset "/dsp/catalog/datasets/CAT0102") s))

api_tests : Unit {0}
unfolding health_returns_ok catalog_endpoint_returns_empty_list_when_cache_is_empty
    catalog_endpoint_returns_upserted_catalog catalog_endpoint_serves_seeded_sample_catalog
    dsp_catalog_request_serves_data_from_the_oxigraph_backend
    catalog_endpoint_filters_by_unknown_node_id
    dsp_catalog_request_disabled_mode_ignores_missing_auth_header
    dsp_catalog_request_bearer_mode_requires_auth_header
    dsp_catalog_request_bearer_mode_denies_unknown_caller_by_default
    dsp_catalog_request_bearer_mode_filters_per_caller
    dsp_dataset_lookup_404s_for_a_dataset_that_exists_but_isnt_visible_to_caller serve dispatch
    strip_prefix trim bearer_token authorize visible_datasets Handlers.catalog_request
    Handlers.catalog_body Handlers.flat_body Handlers.flatten_catalogs Handlers.get_catalog
    Handlers.get_dsp_dataset dsp_dataset placeholder_offer new_urn_uuid not_found unauthorized
    unauthorized_response Handlers.flatten_cache seed_sample_catalog sort_by str_leb paginate
    Memory.upsert Memory.query Memory.query_values Memory.insert Memory.lookup Memory.remove
    Oxigraph.in_memory Oxigraph.upsert Oxigraph.query Oxigraph.collect_results Oxigraph.node_iri
    Oxigraph.load_graph Oxigraph.load_graphs Oxigraph.collect Oxigraph.has_subject
api_tests = tt

api_tests_pass :
    (health_returns_ok ≡ ok tt)
    × (catalog_endpoint_returns_empty_list_when_cache_is_empty ≡ ok tt)
    × (catalog_endpoint_returns_upserted_catalog ≡ ok tt)
    × (catalog_endpoint_serves_seeded_sample_catalog ≡ ok tt)
    × (dsp_catalog_request_serves_data_from_the_oxigraph_backend ≡ ok tt)
    × (catalog_endpoint_filters_by_unknown_node_id ≡ ok tt)
    × (dsp_catalog_request_disabled_mode_ignores_missing_auth_header ≡ ok tt)
    × (dsp_catalog_request_bearer_mode_requires_auth_header ≡ ok tt)
    × (dsp_catalog_request_bearer_mode_denies_unknown_caller_by_default ≡ ok tt)
    × (dsp_catalog_request_bearer_mode_filters_per_caller ≡ ok tt)
    × (dsp_dataset_lookup_404s_for_a_dataset_that_exists_but_isnt_visible_to_caller ≡ ok tt)
unfolding api_tests
api_tests_pass = (refl, refl, refl, refl, refl, refl, refl, refl, refl, refl, refl)
