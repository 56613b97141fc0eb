-- ===== src/Conformance/Domain.antt =====
-- The unit tests of the domain types, crates/catalog-core/src/lib.rs, and of the holder's document,
-- crates/dcp-core/src/lib.rs.
use federated_catalog_rs.Prelude.{◌≡◌, refl, true, [], ◌∷◌, ok, length, eqb, ◌==◌, ◌>>=◌, ◌>>◌}
use federated_catalog_rs.Text.{replace_char}
use federated_catalog_rs.Json.{obj, get, get_array, get_str, lookup, to_list}
use federated_catalog_rs.Platform.{Platform}
use federated_catalog_rs.Testbed.{testbed}
use federated_catalog_rs.Catalog.{
  catalog, node_id, node_id_eq, node_id_to_string, TargetNode, crawl_work_item,
}
use federated_catalog_rs.Dcp.Documents.{generate, did_document}
use federated_catalog_rs.Dcp.Holder.{new, own_did_document}
use federated_catalog_rs.Conformance.Asserts.{Test, assert, index, is_empty, is_text, expect_some}

unfoldable catalog_new_has_empty_collections : Test (Unit {0})
catalog_new_has_empty_collections = do
  let cat = catalog "cat-1" (node_id "node-1")
  assert (cat.id == "cat-1")
  assert (node_id_eq cat.origin_node (node_id "node-1"))
  assert (is_empty cat.datasets)
  assert (is_empty cat.data_services)

unfoldable crawl_work_item_starts_at_zero_retries : Test (Unit {0})
crawl_work_item_starts_at_zero_retries = do
  let node : TargetNode = record {
    id = node_id "node-1";
    name = "node-1";
    target_url = "https://example.org/dsp";
    supported_protocols = "dataspace-protocol-http" ∷ [];
  }
  let item = crawl_work_item node
  assert (eqb item.retries 0)

unfoldable node_id_display_matches_inner_string : Test (Unit {0})
node_id_display_matches_inner_string = do
  let id = node_id "abc"
  assert (node_id_to_string id == "abc")

abbrev anywhere : Platform
anywhere = testbed "kid" (obj []) (obj [])

unfoldable own_did_document_advertises_a_credential_service : Test (Unit {0})
own_did_document_advertises_a_credential_service = do
  let holder = (new anywhere "localhost:19100" true "fake.jws" "scope" 0).0
  let doc = own_did_document anywhere holder
  items ← expect_some (get_array "service" doc)
  let services = to_list items
  assert (eqb (length services) 1)
  service ← index 0 services
  assert (is_text (get_str "type" service) "CredentialService")
  assert (is_text (get_str "serviceEndpoint" service) "http://localhost:19100/dsp/holder")

domain_tests_pass :
    (catalog_new_has_empty_collections ≡ ok tt)
    × (crawl_work_item_starts_at_zero_retries ≡ ok tt)
    × (node_id_display_matches_inner_string ≡ ok tt)
    × (own_did_document_advertises_a_credential_service ≡ ok tt)
unfolding catalog_new_has_empty_collections crawl_work_item_starts_at_zero_retries
    node_id_display_matches_inner_string own_did_document_advertises_a_credential_service new
    generate own_did_document did_document get_array get_str get lookup replace_char
domain_tests_pass = (refl, refl, refl, refl)
