-- ===== src/HttpApi/Tests.antt =====
-- The theorems on authorization and on the handlers at concrete inputs.
use federated_catalog_rs.Prelude.{
  false, String, ◌≡◌, refl, Option, none, some, List, [], ◌∷◌, ok, arith,
}
use federated_catalog_rs.Text.{strip_prefix, trim}
use federated_catalog_rs.Json.{obj}
use federated_catalog_rs.Sorting.{sort_by}
use federated_catalog_rs.Text.Order.{str_leb}
use federated_catalog_rs.Platform.{Platform}
use federated_catalog_rs.Catalog.{Catalog, catalog, node_id}
use federated_catalog_rs.Store.{all, paginate}
use federated_catalog_rs.Store.Memory
use federated_catalog_rs.Store.Memory.{memory, InMemoryCatalogCache}
use federated_catalog_rs.Store.Memory.Laws.{memory_laws}
use federated_catalog_rs.Testbed.{testbed}
use federated_catalog_rs.HttpApi.Auth.{
  DspAuthConfig, bearer, authorize, bearer_token, visible_datasets,
}
use federated_catalog_rs.HttpApi.Auth.Laws.{IsConsistent, Outcome, authorize-Outcome}
use federated_catalog_rs.HttpApi.Handlers.{
  sample_catalog, catalog_body, catalog_request, get_dsp_dataset, flatten_catalogs,
}
use federated_catalog_rs.HttpApi.Handlers.Shown.{
  AllNested, nested_in, groups, has_ids, visible_group, nested-catalog_body,
}
use federated_catalog_rs.Prelude.{map, find, filter}
use federated_catalog_rs.Crawler.Parse.{parse_catalog_response}
use federated_catalog_rs.Crawler.Parse.Services.{with_id}
use federated_catalog_rs.Crawler.Crawl.{authorization, crawl_one}
use federated_catalog_rs.HttpApi.Wire.Encoding.{catalog_value}
use federated_catalog_rs.HttpApi.Handlers.Shown.{visible_in}
use federated_catalog_rs.HttpApi.Federation.{
  parse_catalog_response-catalog_body, parsed_services-catalog_body, crawl_one-catalog_body,
}
use federated_catalog_rs.HttpApi.Federation.Reading.{exported}
use federated_catalog_rs.HttpApi.Federation.Offers.{undescribed, offered_services}
use federated_catalog_rs.Json.{or_else}
use federated_catalog_rs.Store.Lookup.{to_list}
use federated_catalog_rs.Crawler.Config.{ParticipantEntry}
use federated_catalog_rs.Crawler.Crawl.{crawl_once}
use federated_catalog_rs.Crawler.Crawl.Laws.{crawls, latest}
use federated_catalog_rs.HttpApi.Auth.{reply, catalog_list}
use federated_catalog_rs.HttpApi.Handlers.{get_catalog}
use federated_catalog_rs.HttpApi.Handlers.Served.{get_catalog-crawl_once}
use federated_catalog_rs.HttpApi.Handlers.Laws.{
  CatalogOutcome, catalog_request-CatalogOutcome, get_dsp_dataset-visible, Found,
  get_dsp_dataset_lem,
}

abbrev world : Platform
world = testbed "kid" (obj []) (obj [])

-- One caller, who may see one dataset
abbrev auth : DspAuthConfig world
auth = record { mode = bearer; catalog_access = λ token. some ("CAT0102" ∷ []); dcp = none }

auth-IsConsistent : IsConsistent world auth
auth-IsConsistent e = ground (arith, e)

abbrev header : Option String
header = some "Bearer token"

authorize-Outcome_example : Outcome world auth header 7 (authorize world auth header 7).0
authorize-Outcome_example = authorize-Outcome world auth auth-IsConsistent header 7

abbrev catalogs : List Catalog
catalogs = sample_catalog ∷ catalog "other" (node_id "other") ∷ []

nested-catalog_body_example :
    (groups (nested_in (catalog_body world (some ("CAT0102" ∷ [])) catalogs 7).0)
      ≡ filter has_ids (map (visible_group (some ("CAT0102" ∷ []))) catalogs))
    × AllNested (nested_in (catalog_body world (some ("CAT0102" ∷ [])) catalogs 7).0)
nested-catalog_body_example = nested-catalog_body world (some ("CAT0102" ∷ [])) catalogs 7

abbrev cached : InMemoryCatalogCache
cached = record { graphs = (node_id "sample-participant", sample_catalog) ∷ [] }

-- A cache without the dataset that the caller may not see
abbrev redacted : Catalog
redacted = record sample_catalog {
  datasets =
      record {
        id = "CAT0102";
        properties = [];
        distributions =
            record { format = "application/json"; access_service = "sample-data-service" } ∷ [];
      }
      ∷ [];
}

abbrev cached_redacted : InMemoryCatalogCache
cached_redacted = record { graphs = (node_id "sample-participant", redacted) ∷ [] }

cache_tests : Unit {0}
unfolding Memory.query Memory.query_values sort_by str_leb paginate authorize bearer_token
    strip_prefix trim visible_datasets flatten_catalogs
cache_tests = tt

catalog_request-CatalogOutcome_example :
    CatalogOutcome world memory auth auth-IsConsistent header cached 7
      (catalog_request world memory auth header cached 7).0
catalog_request-CatalogOutcome_example =
    catalog_request-CatalogOutcome world memory auth auth-IsConsistent memory_laws header cached
      (record { by_origin = (refl, tt); distinct = (tt, tt) }) 7

authorizes : authorize world auth header 7 ≡ (ok (some ("CAT0102" ∷ [])), 7)
unfolding cache_tests
authorizes = refl

queries : memory.query all cached ≡ ok (sample_catalog ∷ [])
unfolding cache_tests
queries = refl

queries_redacted : memory.query all cached_redacted ≡ ok (redacted ∷ [])
unfolding cache_tests
queries_redacted = refl

same_visible :
    visible_datasets (some ("CAT0102" ∷ [])) (flatten_catalogs (sample_catalog ∷ [])).0
    ≡ visible_datasets (some ("CAT0102" ∷ [])) (flatten_catalogs (redacted ∷ [])).0
unfolding cache_tests
same_visible = refl

get_dsp_dataset-visible_example :
    get_dsp_dataset world memory auth header "CAT0101" cached 7
    ≡ get_dsp_dataset world memory auth header "CAT0101" cached_redacted 7
get_dsp_dataset-visible_example =
    get_dsp_dataset-visible world memory auth header "CAT0101" cached cached_redacted 7 7
      (some ("CAT0102" ∷ [])) (sample_catalog ∷ []) (redacted ∷ []) authorizes queries
      queries_redacted same_visible

get_dsp_dataset_lem_example :
    Found world memory auth "CAT0102"
      (visible_datasets (some ("CAT0102" ∷ [])) (flatten_catalogs (sample_catalog ∷ [])).0)
      (get_dsp_dataset world memory auth header "CAT0102" cached 7).0
get_dsp_dataset_lem_example =
    get_dsp_dataset_lem world memory auth header "CAT0102" cached 7 7 (some ("CAT0102" ∷ []))
      (sample_catalog ∷ []) authorizes queries

abbrev participant : ParticipantEntry
participant = record {
  id = "p";
  name = "P";
  catalog_request_url = "http://p/dsp/catalog/request";
  requires_dcp = false;
  provider_did = none;
}

get_catalog-crawl_once_example :
    get_catalog memory (some "p") (crawl_once world memory none (participant ∷ []) cached 7).1
    ≡ reply 200 (
        catalog_list (
          to_list (
            or_else
              (latest (node_id "p") (crawls world none (participant ∷ []) 7))
              (memory_laws.view cached (node_id "p")))))
get_catalog-crawl_once_example =
    get_catalog-crawl_once world memory memory_laws none "p" (participant ∷ []) cached 7
      (record { by_origin = (refl, tt); distinct = (tt, tt) })

parse_catalog_response-catalog_body_example :
    (parse_catalog_response
      (catalog_value (catalog_body world (some ("CAT0102" ∷ [])) catalogs 7).0)
      participant
      "uuid").datasets
    ≡ map exported (visible_in (some ("CAT0102" ∷ [])) catalogs)
parse_catalog_response-catalog_body_example =
    parse_catalog_response-catalog_body world (some ("CAT0102" ∷ [])) catalogs 7 participant "uuid"

parsed_services-catalog_body_example :
    find
      (with_id "sample-data-service")
      (parse_catalog_response
        (catalog_value (catalog_body world (some ("CAT0102" ∷ [])) catalogs 7).0)
        participant
        "uuid").data_services
    ≡ find
        (with_id "sample-data-service")
        (map undescribed (offered_services (some ("CAT0102" ∷ [])) catalogs))
parsed_services-catalog_body_example =
    parsed_services-catalog_body world (some ("CAT0102" ∷ [])) catalogs 7 participant "uuid"
      "sample-data-service"

-- A participant that serves these catalogs
abbrev peer : Platform
peer = testbed "kid" (obj []) (catalog_value (catalog_body world none catalogs 7).0)

peer_authorizes :
    authorization peer participant none 1 ≡ (ok "federated-catalog-rs-crawler-anonymous", 1)
unfolding authorization
peer_authorizes = refl

crawl_one-catalog_body_example :
    (c : Catalog) × ((crawl_one peer participant none 1).0 ≡ ok c)
    × (c.datasets ≡ map exported (visible_in none catalogs))
    × (c.origin_node ≡ node_id "p")
crawl_one-catalog_body_example =
    crawl_one-catalog_body peer world participant none none catalogs 7
      "federated-catalog-rs-crawler-anonymous" (ok "") 1 1 1 peer_authorizes refl
