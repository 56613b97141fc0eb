-- ===== src/HttpApi/Wire.antt =====
-- crates/http-api/src/lib.rs: the DSP documents that the endpoints return, and the conversions into
-- them. How they are serialized is in Wire/Encoding.
pub mod Encoding
use federated_catalog_rs.Prelude.{String, Option, none, List, [], ◌∷◌, map}
use federated_catalog_rs.Text.{◌+++◌}
use federated_catalog_rs.Platform.{Platform}
use federated_catalog_rs.Catalog.{Distribution, DataService, Dataset}

abbrev pub dsp_context_url : String
dsp_context_url = "https://w3id.org/dspace/2025/1/context.jsonld"

abbrev pub connector_participant_id : String
connector_participant_id = "urn:connector:federated-catalog-rs"

pub record DspPermission : Type 0 where
  pub ld_type : String
  pub action : String

pub record DspOffer : Type 0 where
  pub id : String
  pub ld_type : String
  pub permission : List DspPermission

pub record DspDistribution : Type 0 where
  pub ld_type : String
  pub format : String
  pub access_service : String

abbrev pub dsp_distribution : Distribution → DspDistribution
dsp_distribution d = record {
  ld_type = "Distribution";
  format = d.format;
  access_service = d.access_service;
}

pub record DspDataset : Type 0 where
  pub context : Option (List String)
  pub id : String
  pub ld_type : String
  pub has_policy : List DspOffer
  pub distribution : List DspDistribution

pub record DspDataService : Type 0 where
  pub id : String
  pub ld_type : String
  pub endpoint_url : String

abbrev pub dsp_data_service : DataService → DspDataService
dsp_data_service s = record { id = s.id; ld_type = "DataService"; endpoint_url = s.endpoint_url }

mutual
  -- The fields are those of the struct, in its order.
  pub data DspCatalog : Type 0 where
    dsp_catalog :
        (context : List String) (id ld_type participant_id : String) (dataset : List DspDataset)
        (service : List DspDataService) (catalogs : DspCatalogs)
        → DspCatalog

  pub data DspCatalogs : Type 0 where
    no_catalogs : DspCatalogs
    one_catalog : DspCatalog → DspCatalogs → DspCatalogs

pub record DspCatalogError : Type 0 where
  pub context : List String
  pub id : String
  pub ld_type : String
  pub code : String

pub record ProtocolVersionEntry : Type 0 where
  pub version : String
  pub path : String
  pub binding : String

-- `iter().map(f)` for a function that has an effect
abbrev pub map_world {ℓ} : {A B W : Type ℓ} → (A → W → B × W) → List A → W → List B × W
map_world f [] w = ([], w)
map_world f (x ∷ xs) w = let (y, w1) = f x w in let (ys, w2) = map_world f xs w1 in (y ∷ ys, w2)

module _ (P : Platform) where
  open P use {World, new_uuid}

  unfoldable pub new_urn_uuid : World → String × World
  new_urn_uuid world = let (uuid, world') = new_uuid world in ("urn:uuid:" +++ uuid, world')

  unfoldable pub placeholder_offer : World → DspOffer × World
  unfolding new_urn_uuid
  placeholder_offer world =
      let (id, world') = new_urn_uuid world in
      (
        record {
          id = id;
          ld_type = "Offer";
          permission =
              record { ld_type = "Permission"; action = "http://www.w3.org/ns/odrl/2/use" } ∷ [];
        },
        world',
      )

  -- `DspDataset::from`
  unfoldable pub dsp_dataset : Dataset → World → DspDataset × World
  unfolding placeholder_offer
  dsp_dataset dataset world =
      let (offer, world') = placeholder_offer world in
      (
        record {
          context = none;
          id = dataset.id;
          ld_type = "Dataset";
          has_policy = offer ∷ [];
          distribution = map dsp_distribution dataset.distributions;
        },
        world',
      )

  abbrev catalog_error : String → World → DspCatalogError × World
  catalog_error code world =
      let (id, world') = new_urn_uuid world in
      (
        record { context = dsp_context_url ∷ []; id = id; ld_type = "CatalogError"; code = code },
        world',
      )

  -- `DspCatalogError::not_found` and `DspCatalogError::unauthorized`
  unfoldable pub not_found : World → DspCatalogError × World
  unfolding new_urn_uuid
  not_found world = catalog_error "NOT_FOUND" world

  unfoldable pub unauthorized : World → DspCatalogError × World
  unfolding new_urn_uuid
  unauthorized world = catalog_error "UNAUTHORIZED" world
