-- ===== src/Crawler/Parse/Identity.antt =====
-- Whose catalog a parsed catalog is.
use federated_catalog_rs.Prelude.{String, ◌≡◌, refl, [], arith, ap, ◌∙◌}
use federated_catalog_rs.Text.{◌+++◌}
use federated_catalog_rs.Json.{
  Value, null, bool, number, string, array, object, Items, nil, item, Members, end, member,
  get_array, get_str, unwrap_or,
}
use federated_catalog_rs.Catalog.{Catalog, catalog, node_id}
use federated_catalog_rs.Crawler.Config.{ParticipantEntry}
use federated_catalog_rs.Crawler.Parse.{
  or_empty, add_dataset, add_datasets, add_own, collect_datasets_and_services, collect_member,
  collect_array, collect_items, parse_catalog_response,
}

-- What a catalog is, apart from its datasets and services
abbrev identity : Catalog → Catalog
identity c = record c { datasets = []; data_services = [] }

add_dataset-identity : (v : Value) (c : Catalog) → identity (add_dataset v c) ≡ identity c
unfolding add_dataset
add_dataset-identity v c = ground arith

add_datasets-identity : (vs : Items) (c : Catalog) → identity (add_datasets vs c) ≡ identity c
unfolding add_datasets
add_datasets-identity nil c = refl
add_datasets-identity (item v vs) c =
    add_datasets-identity vs (add_dataset v c) ∙ add_dataset-identity v c

add_own-identity : (v : Value) (c : Catalog) → identity (add_own v c) ≡ identity c
unfolding add_own
add_own-identity v c = add_datasets-identity (or_empty (get_array "dataset" v)) _

mutual
  unfolding collect_datasets_and_services

  collect-identity :
      (v : Value) (c : Catalog) → identity (collect_datasets_and_services v c) ≡ identity c
  collect-identity (object ms) c =
      collect_member-identity ms (add_own (object ms) c) ∙ add_own-identity (object ms) c
  collect-identity null c = add_own-identity null c
  collect-identity (bool b) c = add_own-identity (bool b) c
  collect-identity (number n) c = add_own-identity (number n) c
  collect-identity (string s) c = add_own-identity (string s) c
  collect-identity (array vs) c = add_own-identity (array vs) c

  collect_member-identity :
      (ms : Members) (c : Catalog) → identity (collect_member ms c) ≡ identity c
  collect_member-identity end c = refl
  collect_member-identity (member name v ms) c =
      ground (arith, collect_array-identity v c, collect_member-identity ms c)

  collect_array-identity : (v : Value) (c : Catalog) → identity (collect_array v c) ≡ identity c
  collect_array-identity (array vs) c = collect_items-identity vs c
  collect_array-identity null c = refl
  collect_array-identity (bool b) c = refl
  collect_array-identity (number n) c = refl
  collect_array-identity (string s) c = refl
  collect_array-identity (object ms) c = refl

  collect_items-identity : (vs : Items) (c : Catalog) → identity (collect_items vs c) ≡ identity c
  collect_items-identity nil c = refl
  collect_items-identity (item v vs) c =
      collect_items-identity vs (collect_datasets_and_services v c) ∙ collect-identity v c

module _ (v : Value) (p : ParticipantEntry) (uuid : String) where
  -- The parsed catalog belongs to the participant that was asked, whatever the response says; its id
  -- is the response's `@id`, or a fresh one, after `urn:uuid:`, and its participant id is that of the outermost
  -- response, if it is a text.
  pub parsed_identity :
      ((parse_catalog_response v p uuid).origin_node ≡ node_id p.id)
      × ((parse_catalog_response v p uuid).id ≡ unwrap_or (get_str "@id" v) ("urn:uuid:" +++ uuid))
      × ((parse_catalog_response v p uuid).participant_id ≡ get_str "participantId" v)
  unfolding parse_catalog_response
  parsed_identity =
      let start : Catalog =
        record (catalog (unwrap_or (get_str "@id" v) ("urn:uuid:" +++ uuid)) (node_id p.id)) {
          participant_id = get_str "participantId" v;
        } in
      let same = collect-identity v start in
      (
        ap (λ (c : Catalog). c.origin_node) same,
        ap (λ (c : Catalog). c.id) same,
        ap (λ (c : Catalog). c.participant_id) same,
      )
