-- ===== src/HttpApi/Federation/Tests.antt =====
-- The theorem on chains of servers at a concrete chain.
use federated_catalog_rs.Prelude.{
  false, String, ◌≡◌, refl, Option, none, some, List, [], ◌∷◌, map, ok,
}
use federated_catalog_rs.Json.{Value, obj}
use federated_catalog_rs.Platform.{Platform}
use federated_catalog_rs.Testbed.{testbed}
use federated_catalog_rs.Catalog.{Catalog, catalog, node_id}
use federated_catalog_rs.Crawler.Config.{ParticipantEntry}
use federated_catalog_rs.Crawler.Parse.{parse_catalog_response}
use federated_catalog_rs.Crawler.Crawl.{authorization, crawl_one, parse_response}
use federated_catalog_rs.HttpApi.Wire.Encoding.{catalog_value}
use federated_catalog_rs.HttpApi.Handlers.{sample_catalog, catalog_body, flatten_catalogs}
use federated_catalog_rs.HttpApi.Federation.Reading.{exported}
use federated_catalog_rs.HttpApi.Federation.Chain.{
  Crawled, first_server, next_server, through, Chain-datasets,
}

abbrev participant : ParticipantEntry
participant = record {
  id = "p";
  name = "p";
  catalog_request_url = "https://p.example/catalog/request";
  requires_dcp = false;
  provider_did = none;
}

abbrev world : Platform
world = testbed "kid" (obj []) (obj [])

-- The body with which a server that holds some catalogs answers
abbrev served : Option (List String) → List Catalog → Value
served allowed cs = catalog_value (catalog_body world allowed cs 7).0

-- The world in which it does
abbrev peer : Option (List String) → List Catalog → Platform
peer allowed cs = testbed "kid" (obj []) (served allowed cs)

abbrev fetched : Option (List String) → List Catalog → Catalog
fetched allowed cs = parse_catalog_response (served allowed cs) participant "uuid"

crawled :
    (allowed : Option (List String)) (cs : List Catalog) → Crawled allowed cs (fetched allowed cs)
unfolding authorization crawl_one parse_response
crawled allowed cs = record {
  P = peer allowed cs;
  Remote = world;
  participant = participant;
  holder = none;
  remote = 7;
  auth = "federated-catalog-rs-crawler-anonymous";
  text = ok "";
  w = 1;
  w1 = 1;
  w2 = 1;
  authorized = refl;
  answered = refl;
  succeeded = refl;
}

-- Two nodes; the second server lets one dataset through.
abbrev catalogs : List Catalog
catalogs = sample_catalog ∷ catalog "other" (node_id "other") ∷ []

abbrev second : List Catalog
second = fetched none catalogs ∷ []

Chain-datasets_example :
    (fetched (some ("CAT0102" ∷ [])) second).datasets
    ≡ map exported (through (some ("CAT0102" ∷ []) ∷ none ∷ []) (flatten_catalogs catalogs).0)
Chain-datasets_example =
    Chain-datasets catalogs (none ∷ []) second (some ("CAT0102" ∷ []))
      (fetched (some ("CAT0102" ∷ [])) second)
      (next_server none (crawled none catalogs) first_server)
      (crawled (some ("CAT0102" ∷ [])) second)
