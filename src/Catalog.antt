-- ===== src/Catalog.antt =====
-- crates/catalog-core/src/lib.rs: the domain types.
use federated_catalog_rs.Prelude.{ℕ, String, Option, none, List, [], Bool, ◌==◌}

-- A `BTreeMap<String, String>`: its entries in key order
abbrev pub BTreeMap : Type 0
BTreeMap = List (String × String)

pub record NodeId : Type 0 where
  pub id : String

-- `NodeId::new`
abbrev pub node_id : String → NodeId
node_id s = record { id = s }

-- `Display` of a node id
abbrev pub node_id_to_string : NodeId → String
node_id_to_string n = n.id

-- the derived `PartialEq`
abbrev pub node_id_eq : NodeId → NodeId → Bool
node_id_eq a b = a.id == b.id

pub record TargetNode : Type 0 where
  pub id : NodeId
  pub name : String
  pub target_url : String
  pub supported_protocols : List String

pub record CrawlWorkItem : Type 0 where
  pub node : TargetNode
  pub retries : ℕ

-- `CrawlWorkItem::new`
abbrev pub crawl_work_item : TargetNode → CrawlWorkItem
crawl_work_item node = record { node = node; retries = 0 }

pub record Distribution : Type 0 where
  pub format : String
  pub access_service : String

pub record DataService : Type 0 where
  pub id : String
  pub endpoint_url : String
  pub endpoint_description : Option String

pub record Dataset : Type 0 where
  pub id : String
  pub properties : BTreeMap
  pub distributions : List Distribution

pub record Catalog : Type 0 where
  pub id : String
  pub origin_node : NodeId
  pub participant_id : Option String
  pub datasets : List Dataset
  pub data_services : List DataService
  pub properties : BTreeMap

-- `Catalog::new`
abbrev pub catalog : String → NodeId → Catalog
catalog id origin = record {
  id = id;
  origin_node = origin;
  participant_id = none;
  datasets = [];
  data_services = [];
  properties = [];
}
