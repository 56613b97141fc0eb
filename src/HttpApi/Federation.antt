-- ===== src/HttpApi/Federation.antt =====
-- What a crawler reads in the catalog that another server serves: crates/crawler/src/lib.rs after
-- crates/http-api/src/lib.rs.
pub mod Reading
pub mod Offers
pub mod Chain
pub mod Gated
pub mod Handshake
mod Tests
use mathlib.Core.List.{append-nil, map-append}
use federated_catalog_rs.Prelude.{
  String, ◌≡◌, refl, sym, ap, ◌∙◌, Option, none, some, List, [], ◌∷◌, ◌++◌, map, find, arith, leb,
  length, if◌then◌else◌, Bool-cases, inl, inr, Result, ok,
}
use federated_catalog_rs.Json.{
  Value, object, array, Items, nil, item, Members, end, member, of_list, get, get_str, get_array,
  lookup,
}
use federated_catalog_rs.Platform.{Platform}
use federated_catalog_rs.Dcp.Resolve.{send_or}
use federated_catalog_rs.Dcp.Holder.{HolderIdentity}
use federated_catalog_rs.Crawler.Crawl.{authorization, catalog_request, parse_response, crawl_one}
use federated_catalog_rs.Crawler.Parse.Identity.{parsed_identity}
use federated_catalog_rs.Catalog.{node_id, Catalog, Dataset, DataService, Distribution}
use federated_catalog_rs.Crawler.Config.{ParticipantEntry}
use federated_catalog_rs.Crawler.Parse.{get_id, parse_data_service, parse_catalog_response}
use federated_catalog_rs.Crawler.Parse.Contents.{
  distributions_of, datasets_of, advertised, advertised_by_items, parsed_datasets,
}
use federated_catalog_rs.Crawler.Parse.Mentions.{
  mentioned, mentioned_by_items, mentioned_by_services, mentioned_by_distributions,
  mentioned_by_datasets,
}
use federated_catalog_rs.Crawler.Parse.Services.{with_id, parsed_services_first}
use federated_catalog_rs.HttpApi.Wire.{
  DspCatalog, DspCatalogs, dsp_catalog, no_catalogs, one_catalog, DspDataset, DspDistribution,
  DspDataService, dsp_dataset, dsp_distribution, dsp_data_service,
}
use federated_catalog_rs.HttpApi.Wire.Encoding.{
  distribution_value, dataset_value, service_value, catalog_member, catalog_value, catalog_items,
}
use federated_catalog_rs.HttpApi.Handlers.{
  catalog_body, flat_body, federation_body, nested_catalog, nested_catalogs, add_catalog,
  flatten_catalogs,
}
use federated_catalog_rs.HttpApi.Auth.{visible_datasets}
use federated_catalog_rs.HttpApi.Handlers.Shown.{
  documents, documents_of, visible_in, reads-catalog_body,
}
use federated_catalog_rs.HttpApi.Federation.Reading.{
  exported, read_dataset, read_service, offered, advertised-catalog_value, mentioned-catalog_value,
  dsp_dataset-read,
}
use federated_catalog_rs.HttpApi.Federation.Offers.{
  undescribed, offered_services, offered-catalog_body,
}

module _ (P : Platform) (allowed : Option (List String)) (cs : List Catalog) (w : P.World)
    (p : ParticipantEntry) (uuid : String) where
  -- A crawler that parses the body of this server's catalog response gets exactly the datasets that
  -- it may see, in order and without their properties, whether the body is flat or nested.
  pub parse_catalog_response-catalog_body :
      (parse_catalog_response (catalog_value (catalog_body P allowed cs w).0) p uuid).datasets
      ≡ map exported (visible_in allowed cs)
  parse_catalog_response-catalog_body =
      parsed_datasets (catalog_value (catalog_body P allowed cs w).0) p uuid
      ∙ advertised-catalog_value (catalog_body P allowed cs w).0
      ∙ reads-catalog_body P read_dataset exported (dsp_dataset-read P) allowed cs w

  -- For each id, a crawler that parses the body of this server's catalog response gets the first service of that id among those of the only catalog, or, of several
  -- catalogs, among those of the ones with a dataset that it may see; without the description.
  pub parsed_services-catalog_body :
      (i : String)
      → find
          (with_id i)
          (parse_catalog_response
            (catalog_value (catalog_body P allowed cs w).0)
            p
            uuid).data_services
        ≡ find (with_id i) (map undescribed (offered_services allowed cs))
  parsed_services-catalog_body i =
      parsed_services_first (catalog_value (catalog_body P allowed cs w).0) p uuid i
      ∙ ap (find (with_id i)) (mentioned-catalog_value (catalog_body P allowed cs w).0)
      ∙ ap (find (with_id i)) (offered-catalog_body P allowed cs w)

-- A crawl of a participant that answers with the body of a catalog response of a server like this
-- succeeds with a
-- catalog of the participant that has exactly the datasets that the server lets this caller see,
-- without their properties. The server is any other one, on a platform of its own.
pub crawl_one-catalog_body :
    (P Remote : Platform) (p : ParticipantEntry) (holder : Option (HolderIdentity P))
    (allowed : Option (List String)) (cs : List Catalog) (remote : Remote.World) (auth : String)
    (text : Result String String) (w w1 w2 : P.World)
    → authorization P p holder w ≡ (ok auth, w1)
    → P.send (catalog_request P p auth) w1 ≡ (
      ok (record {
        status = 200;
        json = ok (catalog_value (catalog_body Remote allowed cs remote).0);
        text = text;
      }),
      w2,
    )
    → (c : Catalog) × ((crawl_one P p holder w).0 ≡ ok c)
      × (c.datasets ≡ map exported (visible_in allowed cs))
      × (c.origin_node ≡ node_id p.id)
unfolding crawl_one parse_response
crawl_one-catalog_body P Remote p holder allowed cs remote auth text w w1 w2 a r =
    let body = catalog_value (catalog_body Remote allowed cs remote).0 in
    let uuid = (P.new_uuid w2).0 in
    (
      parse_catalog_response body p uuid,
      rw (a, r) refl,
      parse_catalog_response-catalog_body Remote allowed cs remote p uuid,
      (parsed_identity body p uuid).0,
    )
