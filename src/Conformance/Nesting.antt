-- ===== src/Conformance/Nesting.antt =====
-- The unit tests of the catalogs nested per node, crates/http-api/src/lib.rs. They read the JSON of a
-- response; that a text has no `"catalog"` is stated of the JSON it is the text of.
use federated_catalog_rs.Prelude.{
  String, ◌≡◌, refl, not, Option, none, some, List, [], ◌∷◌, filter, any, ok, length, eqb, ◌==◌,
  ◌++◌, if◌then◌else◌, ◌>>=◌, ◌>>◌,
}
use federated_catalog_rs.Text.{strip_prefix, trim}
use federated_catalog_rs.Text.Order.{str_leb}
use federated_catalog_rs.Sorting.{sort_by}
use federated_catalog_rs.Json.{Value, get, get_str, get_array, lookup}
use federated_catalog_rs.Store.{paginate}
use federated_catalog_rs.Store.Contract.{is_some}
use federated_catalog_rs.Store.Memory
use federated_catalog_rs.Store.Memory.{InMemoryCatalogCache, memory}
use federated_catalog_rs.HttpApi.Wire.{dsp_dataset, placeholder_offer, new_urn_uuid}
use federated_catalog_rs.HttpApi.Wire.Encoding.{catalog_value}
use federated_catalog_rs.HttpApi.Auth.{bearer_token, authorize, visible_datasets}
use federated_catalog_rs.HttpApi.Handlers
use federated_catalog_rs.HttpApi.Handlers.{seed_sample_catalog}
use federated_catalog_rs.HttpApi.Router.{serve, default_auth}
use federated_catalog_rs.HttpApi.Router.Testbed.{dispatch}
use federated_catalog_rs.Conformance.Asserts.{
  Test, assert, expect_some, index, is_empty, same_texts, sorted, is_text,
}
use federated_catalog_rs.Conformance.Requests.{
  anywhere, seeded, bearer_auth, post_catalog_request, has_status, json_of, array_of, ids_of,
  seed_two_node_catalog, oneshot,
}

-- `sort` and `dedup`: an id that comes again later is left out
abbrev distinct : List String → List String
distinct [] = []
distinct (x ∷ xs) =
    let rest = distinct xs in if any (λ (y : String). y == x) rest then rest else x ∷ rest

-- The map from a participant's id to the ids of its datasets
abbrev Entries : Type 0
Entries = List (String × List String)

abbrev insert : String → List String → Entries → Entries
insert participant ids entries =
    (participant, ids) ∷ filter (λ (e : String × List String). not (e.0 == participant)) entries

abbrev collected : Entries → List Value → Test Entries
collected entries [] = ok entries
collected entries (entry ∷ nested) = do
  participant ← expect_some (get_str "participantId" entry)
  ids ← ids_of entry
  collected (insert participant ids entries) nested

abbrev by_participant : List Value → Test Entries
by_participant nested = collected [] nested

abbrev ids_at : String → Entries → Option (List String)
ids_at participant [] = none
ids_at participant ((p, ids) ∷ entries) =
    let rest = ids_at participant entries in if p == participant then some ids else rest

abbrev values : Entries → List String
values [] = []
values ((p, ids) ∷ entries) = ids ++ values entries

unfoldable dsp_catalog_request_nests_per_origin_node_when_multiple_nodes_are_cached :
    Test (Unit {0})
dsp_catalog_request_nests_per_origin_node_when_multiple_nodes_are_cached = do
  s ← seed_two_node_catalog Memory.new
  let response = oneshot (default_auth anywhere) (post_catalog_request none) s
  assert (has_status 200 response)
  parsed ← json_of response
  top_level_datasets ← array_of "dataset" parsed
  assert (is_empty top_level_datasets)
  top_level_services ← array_of "service" parsed
  assert (is_empty top_level_services)
  nested_catalogs ← array_of "catalog" parsed
  assert (eqb (length nested_catalogs) 2)
  entries ← by_participant nested_catalogs
  node_a_ids ← expect_some (ids_at "did:example:node-a" entries)
  assert (same_texts (sorted node_a_ids) ("A1" ∷ "A2" ∷ "A3" ∷ []))
  node_b_ids ← expect_some (ids_at "did:example:node-b" entries)
  assert (same_texts (sorted node_b_ids) ("B1" ∷ "B2" ∷ "B3" ∷ "B4" ∷ "B5" ∷ "B6" ∷ "B7" ∷ []))
  assert (eqb (length (distinct (values entries))) 10)

unfoldable dsp_catalog_request_bearer_mode_filters_nested_catalogs_per_node : Test (Unit {0})
dsp_catalog_request_bearer_mode_filters_nested_catalogs_per_node = do
  s ← seed_two_node_catalog Memory.new
  let auth = bearer_auth (("consumer-a-token", "A1" ∷ []) ∷ [])
  let response = oneshot auth (post_catalog_request (some "consumer-a-token")) s
  assert (has_status 200 response)
  parsed ← json_of response
  top_level_datasets ← array_of "dataset" parsed
  assert (is_empty top_level_datasets)
  nested_catalogs ← array_of "catalog" parsed
  assert (eqb (length nested_catalogs) 1)
  node_a_entry ← index 0 nested_catalogs
  assert (is_text (get_str "participantId" node_a_entry) "did:example:node-a")
  ids ← ids_of node_a_entry
  assert (same_texts ids ("A1" ∷ []))

unfoldable dsp_catalog_request_single_node_case_is_unaffected : Test (Unit {0})
dsp_catalog_request_single_node_case_is_unaffected = do
  s ← seeded
  let response = oneshot (default_auth anywhere) (post_catalog_request none) s
  assert (has_status 200 response)
  parsed ← json_of response
  ids ← ids_of parsed
  assert (same_texts ids ("CAT0101" ∷ "CAT0102" ∷ []))
  assert (not (is_some (get "catalog" parsed)))

nesting_tests : Unit {0}
unfolding dsp_catalog_request_nests_per_origin_node_when_multiple_nodes_are_cached
    dsp_catalog_request_bearer_mode_filters_nested_catalogs_per_node
    dsp_catalog_request_single_node_case_is_unaffected serve dispatch strip_prefix trim bearer_token
    authorize visible_datasets Handlers.catalog_request Handlers.catalog_body Handlers.flat_body
    Handlers.federation_body Handlers.nested_catalogs Handlers.flatten_catalogs dsp_dataset
    placeholder_offer new_urn_uuid seed_sample_catalog sort_by str_leb paginate Memory.upsert
    Memory.query Memory.query_values Memory.insert Memory.lookup Memory.remove catalog_value get
    get_str get_array lookup
nesting_tests = tt

nesting_tests_pass :
    (dsp_catalog_request_nests_per_origin_node_when_multiple_nodes_are_cached ≡ ok tt)
    × (dsp_catalog_request_bearer_mode_filters_nested_catalogs_per_node ≡ ok tt)
    × (dsp_catalog_request_single_node_case_is_unaffected ≡ ok tt)
unfolding nesting_tests
nesting_tests_pass = (refl, refl, refl)
