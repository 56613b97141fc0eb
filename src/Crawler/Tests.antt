-- ===== src/Crawler/Tests.antt =====
-- The crawler's theorems at concrete inputs.
use federated_catalog_rs.Prelude.{
  ◌≡◌, refl, ◌↔◌, true, false, none, some, List, [], ◌∷◌, ok, err, All, find,
}
use federated_catalog_rs.Json.{Value, obj, arr, string, get_str, unwrap_or, or_else}
use federated_catalog_rs.Sorting.{HasDistinctKeys}
use federated_catalog_rs.Catalog.{node_id}
use federated_catalog_rs.Store.Memory.{memory, new}
use federated_catalog_rs.Store.Memory.Laws.{memory_laws}
use federated_catalog_rs.Dcp.Holder.{HolderIdentity}
use federated_catalog_rs.Dcp.Holder
use federated_catalog_rs.Platform.{Platform}
use federated_catalog_rs.Testbed.{testbed}
use federated_catalog_rs.Crawler.Config.{
  ParticipantEntry, HolderConfig, ParticipantsConfig, missing_provider_did, validate,
  validate_entries, check_entry, ConfigSource, load, parse,
}
use federated_catalog_rs.Crawler.Config.Laws.{
  CanAuthenticate, validate_iff, FirstOffence, validate-FirstOffence,
}
use federated_catalog_rs.Crawler.Parse.{parse_catalog_response, service_id}
use federated_catalog_rs.Crawler.Parse.Services.{
  with_id, parsed_services_first, parsed_services-distinct,
}
use federated_catalog_rs.Crawler.Parse.Mentions.{mentioned}
use federated_catalog_rs.Crawler.Parse.Contents.{advertised, parsed_datasets}
use federated_catalog_rs.Crawler.Parse.Identity.{parsed_identity}
use federated_catalog_rs.Crawler.Crawl.{crawl_once}
use federated_catalog_rs.Crawler.Crawl.Tally.{IsTally, crawl_once-IsTally}
use federated_catalog_rs.Crawler.Crawl.Laws.{
  crawls, latest, failing, view-crawl_once, failures-crawl_once,
}

abbrev open_participant : ParticipantEntry
open_participant = record {
  id = "p-open";
  name = "Open";
  catalog_request_url = "http://open/dsp/catalog/request";
  requires_dcp = false;
  provider_did = none;
}

abbrev dcp_participant : ParticipantEntry
dcp_participant = record open_participant {
  id = "p-dcp";
  requires_dcp = true;
  provider_did = some "did:web:provider";
}

abbrev nameless_participant : ParticipantEntry
nameless_participant = record dcp_participant { id = "p-bad"; provider_did = none }

abbrev holder_config : HolderConfig
holder_config = record {
  own_did_host = "localhost:8080";
  insecure_http = true;
  credential_jws = "h.p.s";
  required_scope = "scope";
}

abbrev good_config : ParticipantsConfig
good_config = record {
  interval_secs = 60;
  participants = open_participant ∷ dcp_participant ∷ [];
  holder = some holder_config;
}

abbrev bad_config : ParticipantsConfig
bad_config = record good_config { participants = open_participant ∷ nameless_participant ∷ [] }

abbrev one_file : ConfigSource
one_file = record { toml_from_str = λ raw. ok good_config; read_to_string = λ path. ok "raw" }

good_validates : validate good_config ≡ ok tt
unfolding validate validate_entries check_entry
good_validates = refl

bad_fails : validate bad_config ≡ err (missing_provider_did "p-bad")
unfolding validate validate_entries check_entry
bad_fails = refl

good_loads : load one_file "crawler.toml" ≡ ok good_config
unfolding load parse validate validate_entries check_entry
good_loads = refl

validate_iff_example :
    (validate good_config ≡ ok tt)
    ↔ All (CanAuthenticate good_config.holder) good_config.participants
validate_iff_example = validate_iff good_config

validate-FirstOffence_example : FirstOffence bad_config (missing_provider_did "p-bad")
validate-FirstOffence_example =
    validate-FirstOffence bad_config (missing_provider_did "p-bad") bad_fails

-- A catalog with a service, a dataset and a nested catalog
abbrev nested_response : Value
nested_response = obj (
    ("dataset", arr (obj (("@id", string "d-2") ∷ []) ∷ []))
    ∷ (
      "service",
      arr (obj (("@id", string "s-1") ∷ ("endpointURL", string "http://other") ∷ []) ∷ []),
    )
    ∷ [])

abbrev response : Value
response = obj (
    ("@id", string "c-1")
    ∷ ("catalog", arr (nested_response ∷ []))
    ∷ ("dataset", arr (obj (("@id", string "d-1") ∷ []) ∷ []))
    ∷ ("participantId", string "urn:p")
    ∷ (
      "service",
      arr (obj (("@id", string "s-1") ∷ ("endpointURL", string "http://open") ∷ []) ∷ []),
    )
    ∷ [])

parsed_services_first_example :
    find (with_id "s-1") (parse_catalog_response response open_participant "uuid").data_services
    ≡ find (with_id "s-1") (mentioned response)
parsed_services_first_example = parsed_services_first response open_participant "uuid" "s-1"

parsed_services-distinct_example :
    HasDistinctKeys service_id
      (parse_catalog_response response open_participant "uuid").data_services
parsed_services-distinct_example = parsed_services-distinct response open_participant "uuid"

parsed_datasets_example :
    (parse_catalog_response response open_participant "uuid").datasets ≡ advertised response
parsed_datasets_example = parsed_datasets response open_participant "uuid"

parsed_identity_example :
    ((parse_catalog_response response open_participant "uuid").origin_node ≡ node_id "p-open")
    × ((parse_catalog_response response open_participant "uuid").id
        ≡ unwrap_or (get_str "@id" response) "urn:uuid:uuid")
    × ((parse_catalog_response response open_participant "uuid").participant_id
        ≡ get_str "participantId" response)
parsed_identity_example = parsed_identity response open_participant "uuid"

-- An outside world in which every request is answered with the response above
abbrev world : Platform
world = testbed "kid" response response

abbrev two : List ParticipantEntry
two = open_participant ∷ dcp_participant ∷ []

-- Without a holder, the second participant fails.
crawl_once-IsTally_example : IsTally 2 (crawl_once world memory none two new 7).0
crawl_once-IsTally_example = crawl_once-IsTally world memory none two new 7

view-crawl_once_example :
    memory_laws.view (crawl_once world memory none two new 7).1 (node_id "p-open")
    ≡ or_else
        (latest (node_id "p-open") (crawls world none two 7))
        (memory_laws.view new (node_id "p-open"))
view-crawl_once_example =
    view-crawl_once world memory memory_laws none two new 7 (node_id "p-open")
      (record { by_origin = tt; distinct = tt })

failures-crawl_once_example :
    (crawl_once world memory none two new 7).0.failures ≡ failing (crawls world none two 7)
failures-crawl_once_example =
    failures-crawl_once world memory memory_laws none two new 7
      (record { by_origin = tt; distinct = tt })

abbrev identity : HolderIdentity world
identity = (Holder.new world "localhost:8080" true "h.p.s" "scope" 7).0
