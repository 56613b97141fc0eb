-- ===== src/HttpApi/Handlers.antt =====
-- crates/http-api/src/lib.rs: the handlers. A handler that reads the cache is given its state.
pub mod Shown
pub mod Laws
pub mod Served
use federated_catalog_rs.Prelude.{
  ℕ, String, Bool, Option, none, some, List, [], ◌∷◌, ◌++◌, map, Result, ok, err, length, leb, find,
  ◌==◌, if◌then◌else◌,
}
use federated_catalog_rs.Json.{unwrap_or}
use federated_catalog_rs.Platform.{Platform}
use federated_catalog_rs.Catalog.{
  Catalog, Dataset, DataService, Distribution, catalog, node_id, node_id_to_string,
}
use federated_catalog_rs.Store.{
  CatalogCache, CatalogQuery, StoreResult, store_error_to_string, all, for_node,
}
use federated_catalog_rs.Dcp.Holder.{HolderIdentity, own_did_document, answer_presentation_query}
use federated_catalog_rs.HttpApi.Verifier
use federated_catalog_rs.HttpApi.Wire.{
  DspCatalog, DspCatalogs, dsp_catalog, no_catalogs, one_catalog, DspDataset, dsp_dataset,
  dsp_data_service, dsp_context_url, connector_participant_id, map_world, new_urn_uuid, not_found,
}
use federated_catalog_rs.HttpApi.Auth.{
  Body, empty_body, health_body, catalog_list, error_body, versions, dsp_catalog_body,
  dsp_dataset_body, catalog_error_body, document, presentation_body, Reply, reply, bearer_token,
  visible_datasets, DspAuthConfig, authorize,
}

-- `GET /health` and `GET /.well-known/dspace-version`
abbrev pub health : Reply
health = reply 200 (health_body "ok")

abbrev pub dspace_version : Reply
dspace_version =
    reply 200 (versions (record { version = "2025-1"; path = "/dsp"; binding = "HTTPS" } ∷ []))

unfoldable pub flatten_catalogs : List Catalog → List Dataset × List DataService
flatten_catalogs [] = ([], [])
flatten_catalogs (c ∷ cs) =
    let (datasets, services) = flatten_catalogs cs in
    (c.datasets ++ datasets, c.data_services ++ services)

abbrev pub flatten_result :
    StoreResult (List Catalog) → StoreResult (List Dataset × List DataService)
flatten_result (ok catalogs) = ok (flatten_catalogs catalogs)
flatten_result (err e) = err e

-- The catalog that a fresh server has before a crawl
abbrev sample_dataset : String → Dataset
sample_dataset id = record {
  id = id;
  properties = [];
  distributions =
      record { format = "application/json"; access_service = "sample-data-service" } ∷ [];
}

abbrev pub sample_catalog : Catalog
sample_catalog = record (catalog "sample-catalog" (node_id "sample-participant")) {
  participant_id = some "did:example:sample-participant";
  datasets = sample_dataset "CAT0101" ∷ sample_dataset "CAT0102" ∷ [];
  data_services =
      record {
        id = "sample-data-service";
        endpoint_url = "https://sample.example.org/dsp";
        endpoint_description = some "dataspace-protocol-http:1.0";
      }
      ∷ [];
}

abbrev pub list_reply : StoreResult (List Catalog) → Reply
list_reply (ok catalogs) = reply 200 (catalog_list catalogs)
list_reply (err e) = reply 500 (error_body (store_error_to_string e))

module _ (cache : CatalogCache) where
  unfoldable pub seed_sample_catalog : cache.State → StoreResult (Unit {0}) × cache.State
  seed_sample_catalog state = cache.upsert sample_catalog state

  unfoldable pub flatten_cache : cache.State → StoreResult (List Dataset × List DataService)
  flatten_cache state = flatten_result (cache.query all state)

  abbrev list_query : Option String → CatalogQuery
  list_query none = all
  list_query (some id) = for_node (node_id id)

  unfoldable pub get_catalog : Option String → cache.State → Reply
  get_catalog id state = list_reply (cache.query (list_query id) state)

abbrev pub add_catalog : Option DspCatalog → DspCatalogs → DspCatalogs
add_catalog none cs = cs
add_catalog (some c) cs = one_catalog c cs

module _ (P : Platform) where
  open P use {World}

  -- One node's catalog as it is nested in a federation, if the caller sees a dataset of it
  abbrev pub nested_catalog : Catalog → List Dataset → World → Option DspCatalog × World
  nested_catalog c [] world = (none, world)
  nested_catalog c (d ∷ ds) world =
      let participant_id = unwrap_or c.participant_id (node_id_to_string c.origin_node) in
      let (id, world1) = new_urn_uuid P world in
      let (datasets, world2) = map_world (dsp_dataset P) (d ∷ ds) world1 in
      (
        some (
            dsp_catalog (dsp_context_url ∷ []) id "Catalog" participant_id datasets
              (map dsp_data_service c.data_services) no_catalogs),
        world2,
      )

  -- The `filter_map` over the catalogs
  unfoldable pub nested_catalogs : Option (List String) → List Catalog → World → DspCatalogs × World
  nested_catalogs allowed [] world = (no_catalogs, world)
  nested_catalogs allowed (c ∷ cs) world =
      let (first, world1) = nested_catalog c (visible_datasets allowed c.datasets) world in
      let (rest, world2) = nested_catalogs allowed cs world1 in (add_catalog first rest, world2)

  unfoldable pub flat_body : Option (List String) → List Catalog → World → DspCatalog × World
  flat_body allowed catalogs world =
      let (datasets, services) = flatten_catalogs catalogs in
      let (id, world1) = new_urn_uuid P world in
      let (dsp_datasets, world2) =
        map_world (dsp_dataset P) (visible_datasets allowed datasets) world1 in
      (
        dsp_catalog (dsp_context_url ∷ []) id "Catalog" connector_participant_id dsp_datasets
            (map dsp_data_service services) no_catalogs,
        world2,
      )

  unfoldable pub federation_body : Option (List String) → List Catalog → World → DspCatalog × World
  unfolding nested_catalogs
  federation_body allowed catalogs world =
      let (nested, world1) = nested_catalogs allowed catalogs world in
      let (id, world2) = new_urn_uuid P world1 in
      (
        dsp_catalog (dsp_context_url ∷ []) id "Catalog" connector_participant_id [] [] nested,
        world2,
      )

  unfoldable pub catalog_body : Option (List String) → List Catalog → World → DspCatalog × World
  unfolding flat_body federation_body
  catalog_body allowed catalogs world =
      if leb (length catalogs) 1
      then flat_body allowed catalogs world
      else federation_body allowed catalogs world

  -- 200 with the dataset as a document of its own, or 404
  abbrev dataset_reply : Option Dataset → World → Reply × World
  dataset_reply (some dataset) world =
      let (body, world') = dsp_dataset P dataset world in
      (reply 200 (dsp_dataset_body (record body { context = some (dsp_context_url ∷ []) })), world')
  dataset_reply none world =
      let (e, world') = not_found P world in (reply 404 (catalog_error_body e), world')

  module _ (cache : CatalogCache) (auth : DspAuthConfig P) where
    abbrev catalog_reply : StoreResult (List Catalog) → Option (List String) → World → Reply × World
    catalog_reply (err e) allowed world = (reply 500 (error_body (store_error_to_string e)), world)
    catalog_reply (ok catalogs) allowed world =
        let (body, world') = catalog_body allowed catalogs world in
        (reply 200 (dsp_catalog_body body), world')

    abbrev authorized_catalog :
        Result (Option (List String)) Reply × World → cache.State → Reply × World
    authorized_catalog (err r, world) state = (r, world)
    authorized_catalog (ok allowed, world) state =
        catalog_reply (cache.query all state) allowed world

    unfoldable pub catalog_request : Option String → cache.State → World → Reply × World
    unfolding catalog_body
    catalog_request header state world = authorized_catalog (authorize P auth header world) state

    abbrev found_reply :
        StoreResult (List Dataset × List DataService)
        → Option (List String)
        → String
        → World
        → Reply × World
    found_reply (err e) allowed id world = (reply 500 (error_body (store_error_to_string e)), world)
    found_reply (ok (datasets, services)) allowed id world =
        dataset_reply (find (λ d. d.id == id) (visible_datasets allowed datasets)) world

    abbrev authorized_dataset :
        Result (Option (List String)) Reply × World → String → cache.State → Reply × World
    authorized_dataset (err r, world) id state = (r, world)
    authorized_dataset (ok allowed, world) id state =
        found_reply (flatten_cache cache state) allowed id world

    unfoldable pub get_dsp_dataset : Option String → String → cache.State → World → Reply × World
    get_dsp_dataset header id state world =
        authorized_dataset (authorize P auth header world) id state

  unfoldable pub own_did_document_route : DspAuthConfig P → Reply
  own_did_document_route auth = elim auth.dcp [
    | some config ↦ reply 200 (document (Verifier.own_did_document P config))
    | none ↦ reply 404 empty_body
  ]

  unfoldable pub holder_did_document_route : Option (HolderIdentity P) → Reply
  holder_did_document_route (some holder) = reply 200 (document (own_did_document P holder))
  holder_did_document_route none = reply 404 empty_body

  abbrev presentation_reply : Result (List String) String × World → Reply × World
  presentation_reply (ok presentation, world) = (reply 200 (presentation_body presentation), world)
  presentation_reply (err e, world) = (reply 401 empty_body, world)

  abbrev answer : HolderIdentity P → Option String → World → Reply × World
  answer holder none world = (reply 401 empty_body, world)
  answer holder (some token) world =
      presentation_reply (answer_presentation_query P holder token world)

  unfoldable pub holder_presentation_query_route :
      Option (HolderIdentity P) → Option String → World → Reply × World
  holder_presentation_query_route none header world = (reply 404 empty_body, world)
  holder_presentation_query_route (some holder) header world =
      answer holder (bearer_token header) world
