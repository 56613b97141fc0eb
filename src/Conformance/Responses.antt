-- ===== src/Conformance/Responses.antt =====
-- The unit tests of the response parser, crates/crawler/src/lib.rs.
use federated_catalog_rs.Prelude.{
  String, ◌≡◌, refl, [], ◌∷◌, map, ok, length, eqb, ◌==◌, ◌>>=◌, ◌>>◌,
}
use federated_catalog_rs.Text.{strip_prefix}
use federated_catalog_rs.Text.Order.{str_leb}
use federated_catalog_rs.Sorting.{sort_by}
use federated_catalog_rs.Json.{Value, obj, arr, string, get, get_str, get_array, lookup}
use federated_catalog_rs.Platform.{Platform}
use federated_catalog_rs.Testbed.{testbed}
use federated_catalog_rs.Catalog.{Catalog, DataService, Dataset, node_id, node_id_eq}
use federated_catalog_rs.Crawler.Parse.{
  get_id, parse_data_service, add_service, add_parsed_service, add_services, parse_distribution,
  parse_distributions, add_dataset, add_datasets, add_own, collect_datasets_and_services,
  parse_catalog_response,
}
use federated_catalog_rs.Crawler.Crawl.{parse_response}
use federated_catalog_rs.Store.Contract.{is_some}
use federated_catalog_rs.Conformance.Asserts.{
  Test, assert, index, is_empty, same_texts, is_text, sorted,
}
use federated_catalog_rs.Conformance.Bodies.{
  participant, real_edc_shaped_response, federation_response,
}

-- A random id is drawn as the program draws it.
abbrev anywhere : Platform
anywhere = testbed "kid" (obj []) (obj [])

abbrev parse : Value → String → Catalog
parse body id = (parse_response anywhere body (participant id) 0).0

unfoldable parses_real_edc_shaped_response_with_nested_access_service_object : Test (Unit {0})
parses_real_edc_shaped_response_with_nested_access_service_object = do
  let catalog = parse real_edc_shaped_response "edc-participant"
  assert (catalog.id == "6d3d7a0c-bf06-4160-839f-853350446179")
  assert (node_id_eq catalog.origin_node (node_id "edc-participant"))
  assert (is_text catalog.participant_id "CONNECTOR_UNDER_TEST")
  assert (eqb (length catalog.datasets) 1)
  dataset ← index 0 catalog.datasets
  assert (dataset.id == "CAT0101")
  assert (eqb (length dataset.distributions) 1)
  distribution ← index 0 dataset.distributions
  assert (distribution.format == "HttpData-PULL")
  assert (distribution.access_service == "5ee7e0fa-a2bc-4251-bab3-d3a1454dcfc8")
  assert (eqb (length catalog.data_services) 1)
  service ← index 0 catalog.data_services
  assert (service.id == "5ee7e0fa-a2bc-4251-bab3-d3a1454dcfc8")
  assert (service.endpoint_url == "http://localhost:8082/api/dsp/2025-1")
  assert (is_text service.endpoint_description "dspace:connector")

unfoldable parses_compact_string_access_service : Test (Unit {0})
parses_compact_string_access_service = do
  let body = obj (
      ("@id", string "cat-1")
      ∷ (
        "dataset",
        arr (
            obj (
              ("@id", string "CAT0101")
              ∷ (
                "distribution",
                arr (
                    obj (
                      ("format", string "application/json")
                      ∷ ("accessService", string "sample-data-service")
                      ∷ [])
                    ∷ []),
              )
              ∷ [])
            ∷ []),
      )
      ∷ (
        "service",
        arr (
            obj (
              ("@id", string "sample-data-service")
              ∷ ("endpointURL", string "https://example.org/dsp")
              ∷ [])
            ∷ []),
      )
      ∷ [])
  let catalog = parse body "compact-participant"
  assert (eqb (length catalog.datasets) 1)
  dataset ← index 0 catalog.datasets
  distribution ← index 0 dataset.distributions
  assert (distribution.access_service == "sample-data-service")
  assert (eqb (length catalog.data_services) 1)
  service ← index 0 catalog.data_services
  assert (service.endpoint_url == "https://example.org/dsp")

unfoldable missing_dataset_and_service_arrays_produce_an_empty_but_valid_catalog : Test (Unit {0})
missing_dataset_and_service_arrays_produce_an_empty_but_valid_catalog = do
  let catalog = parse (obj (("@id", string "empty-cat") ∷ [])) "empty-participant"
  assert (catalog.id == "empty-cat")
  assert (is_empty catalog.datasets)
  assert (is_empty catalog.data_services)

unfoldable missing_id_falls_back_to_a_fresh_uuid : Test (Unit {0})
missing_id_falls_back_to_a_fresh_uuid = do
  let catalog = parse (obj (("dataset", arr []) ∷ [])) "no-id-participant"
  assert (is_some (strip_prefix "urn:uuid:" catalog.id))

unfoldable dataset_id_falls_back_to_plain_id_field_when_at_id_is_absent : Test (Unit {0})
dataset_id_falls_back_to_plain_id_field_when_at_id_is_absent = do
  let body = obj (("dataset", arr (obj (("id", string "CAT0102") ∷ []) ∷ [])) ∷ [])
  let catalog = parse body "plain-id-participant"
  assert (eqb (length catalog.datasets) 1)
  dataset ← index 0 catalog.datasets
  assert (dataset.id == "CAT0102")

unfoldable flattens_nested_catalog_entries_from_a_federation_of_federations_response :
    Test (Unit {0})
flattens_nested_catalog_entries_from_a_federation_of_federations_response = do
  let catalog = parse federation_response "upstream-aggregator-participant"
  assert (node_id_eq catalog.origin_node (node_id "upstream-aggregator-participant"))
  assert (is_text catalog.participant_id "urn:connector:upstream-aggregator")
  assert (same_texts (sorted (map (λ (d : Dataset). d.id) catalog.datasets)) ("A1" ∷ "B1" ∷ []))
  assert (
      same_texts (sorted (map (λ (s : DataService). s.id) catalog.data_services))
        ("node-a-data-service" ∷ "node-b-data-service" ∷ []))

response_tests : Unit {0}
unfolding parses_real_edc_shaped_response_with_nested_access_service_object
    parses_compact_string_access_service
    missing_dataset_and_service_arrays_produce_an_empty_but_valid_catalog
    missing_id_falls_back_to_a_fresh_uuid strip_prefix
    dataset_id_falls_back_to_plain_id_field_when_at_id_is_absent
    flattens_nested_catalog_entries_from_a_federation_of_federations_response parse_response
    parse_catalog_response collect_datasets_and_services add_own add_datasets add_dataset
    parse_distributions parse_distribution add_services add_parsed_service add_service
    parse_data_service get_id get get_str get_array lookup sort_by str_leb
response_tests = tt

response_tests_pass :
    (parses_real_edc_shaped_response_with_nested_access_service_object ≡ ok tt)
    × (parses_compact_string_access_service ≡ ok tt)
    × (missing_dataset_and_service_arrays_produce_an_empty_but_valid_catalog ≡ ok tt)
    × (missing_id_falls_back_to_a_fresh_uuid ≡ ok tt)
    × (dataset_id_falls_back_to_plain_id_field_when_at_id_is_absent ≡ ok tt)
    × (flattens_nested_catalog_entries_from_a_federation_of_federations_response ≡ ok tt)
unfolding response_tests
response_tests_pass = (refl, refl, refl, refl, refl, refl)
