-- ===== src/Crawler/Parse.antt =====
-- `parse_catalog_response` of crates/crawler/src/lib.rs, and what it calls.
pub mod Mentions
pub mod Services
pub mod Contents
pub mod Identity
use federated_catalog_rs.Prelude.{
  String, Bool, true, false, Option, none, some, List, [], ◌∷◌, ◌++◌, any, ◌==◌, if◌then◌else◌,
}
use federated_catalog_rs.Text.{◌+++◌}
use federated_catalog_rs.Json.{
  Value, null, bool, number, string, array, object, Items, nil, item, Members, end, member, get,
  get_str, get_array, as_str, and_then, or_else, unwrap_or,
}
use federated_catalog_rs.Catalog.{Catalog, catalog, node_id, DataService, Dataset, Distribution}
use federated_catalog_rs.Crawler.Config.{ParticipantEntry}

-- `value.get("@id").or_else(|| value.get("id")).and_then(Value::as_str)`
unfoldable pub get_id : Value → Option String
get_id v = and_then (or_else (get "@id" v) (get "id" v)) as_str

unfoldable pub parse_data_service : Value → Option DataService
parse_data_service v = elim (get_id v) [
  | none ↦ none
  | some id ↦ some (record {
    id = id;
    endpoint_url = unwrap_or (get_str "endpointURL" v) "";
    endpoint_description = get_str "endpointDescription" v;
  })
]

abbrev pub service_id : DataService → String
service_id s = s.id

-- `push` unless a service of this id is there
unfoldable pub add_service : DataService → List DataService → List DataService
add_service service services =
    if any (λ (s : DataService). s.id == service.id) services
    then services
    else services ++ service ∷ []

unfoldable pub add_parsed_service : Value → List DataService → List DataService
add_parsed_service v services = elim (parse_data_service v) [
  | none ↦ services
  | some s ↦ add_service s services
]

-- The loop over the `service` array
unfoldable pub add_services : Items → List DataService → List DataService
add_services nil services = services
add_services (item v vs) services = add_services vs (add_parsed_service v services)

-- The `match` on `accessService`: the id, and the services with the one that is nested there
abbrev pub access_service : Option Value → List DataService → String × List DataService
access_service (some (string id)) services = (id, services)
access_service (some (object ms)) services =
    (unwrap_or (get_id (object ms)) "", add_parsed_service (object ms) services)
access_service (some null) services = ("", services)
access_service (some (bool b)) services = ("", services)
access_service (some (number n)) services = ("", services)
access_service (some (array vs)) services = ("", services)
access_service none services = ("", services)

unfoldable pub parse_distribution : Value → List DataService → Distribution × List DataService
parse_distribution v services =
    let (id, services') = access_service (get "accessService" v) services in
    (record { format = unwrap_or (get_str "format" v) ""; access_service = id }, services')

-- The loop over the `distribution` array
unfoldable pub parse_distributions : Items → List DataService → List Distribution × List DataService
parse_distributions nil services = ([], services)
parse_distributions (item v vs) services =
    let (d, services') = parse_distribution v services in
    let (ds, services'') = parse_distributions vs services' in (d ∷ ds, services'')

abbrev pub or_empty : Option Items → Items
or_empty none = nil
or_empty (some vs) = vs

-- One round of the loop over the `dataset` array; an entry without an id is passed over.
unfoldable pub add_dataset : Value → Catalog → Catalog
add_dataset v c = elim (get_id v) [
  | none ↦ c
  | some id ↦
      let (ds, services) =
        parse_distributions (or_empty (get_array "distribution" v)) c.data_services in
      record c {
        datasets = c.datasets ++ record { id = id; properties = []; distributions = ds } ∷ [];
        data_services = services;
      }
]

unfoldable pub add_datasets : Items → Catalog → Catalog
add_datasets nil c = c
add_datasets (item v vs) c = add_datasets vs (add_dataset v c)

-- The value's own `service` and `dataset` entries
unfoldable pub add_own : Value → Catalog → Catalog
add_own v c =
    add_datasets (or_empty (get_array "dataset" v))
      (record c { data_services = add_services (or_empty (get_array "service" v)) c.data_services })

-- `collect_datasets_and_services`. The nested catalogs are found by recursion over the value's
-- members, which is what `get("catalog")` finds: see `collect_lem`.
unfoldable mutual
  pub collect_datasets_and_services : Value → Catalog → Catalog
  collect_datasets_and_services (object ms) c = collect_member ms (add_own (object ms) c)
  collect_datasets_and_services null c = add_own null c
  collect_datasets_and_services (bool b) c = add_own (bool b) c
  collect_datasets_and_services (number n) c = add_own (number n) c
  collect_datasets_and_services (string s) c = add_own (string s) c
  collect_datasets_and_services (array vs) c = add_own (array vs) c

  pub collect_member : Members → Catalog → Catalog
  collect_member end c = c
  collect_member (member name v ms) c = elim (name == "catalog") [
    | true ↦ collect_array v c
    | false ↦ collect_member ms c
  ]

  pub collect_array : Value → Catalog → Catalog
  collect_array (array vs) c = collect_items vs c
  collect_array null c = c
  collect_array (bool b) c = c
  collect_array (number n) c = c
  collect_array (string s) c = c
  collect_array (object ms) c = c

  -- the loop over the `catalog` array
  pub collect_items : Items → Catalog → Catalog
  collect_items nil c = c
  collect_items (item v vs) c = collect_items vs (collect_datasets_and_services v c)

-- The `uuid` is drawn only if the response has no id; the function is given the next one.
unfoldable pub parse_catalog_response : Value → ParticipantEntry → String → Catalog
parse_catalog_response v participant uuid =
    let id = unwrap_or (get_str "@id" v) ("urn:uuid:" +++ uuid) in
    let c = catalog id (node_id participant.id) in
    collect_datasets_and_services v (record c { participant_id = get_str "participantId" v })
