-- ===== src/HttpApi/Auth.antt =====
-- crates/http-api/src/lib.rs: who may see what.
pub mod Laws
use federated_catalog_rs.Prelude.{
  ℕ, String, Bool, true, false, Option, none, some, List, [], ◌∷◌, Result, ok, err, filter, any,
  ◌==◌, if◌then◌else◌,
}
use federated_catalog_rs.Text.{strip_prefix, trim, is_empty}
use federated_catalog_rs.Json.{Value, unwrap_or}
use federated_catalog_rs.Platform.{Platform}
use federated_catalog_rs.Catalog.{Catalog, Dataset}
use federated_catalog_rs.HttpApi.Wire.{
  DspCatalog, DspDataset, DspCatalogError, unauthorized, ProtocolVersionEntry,
}
use federated_catalog_rs.HttpApi.Verifier.{DcpConfig, VerifiedCaller, verify_dcp_bearer_token}

pub data DspAuthMode : Type 0 where
  disabled bearer dcp : DspAuthMode

-- The body of a response, before it is serialized
pub data Body : Type 0 where
  empty_body : Body
  health_body : (status : String) → Body
  catalog_list : List Catalog → Body
  error_body : String → Body
  versions : List ProtocolVersionEntry → Body
  dsp_catalog_body : DspCatalog → Body
  dsp_dataset_body : DspDataset → Body
  catalog_error_body : DspCatalogError → Body
  document : Value → Body
  presentation_body : List String → Body

-- What a handler does: it responds, or it panics
pub data Reply : Type 0 where
  reply : (status : ℕ) (body : Body) → Reply
  panicked : Reply

abbrev pub nonempty_text : String → Option String
nonempty_text s = if is_empty s then none else some s

abbrev pub trimmed : Option String → Option String
trimmed none = none
trimmed (some rest) = nonempty_text (trim rest)

-- The token of a header `Authorization: Bearer <token>`. The header is `none` if it is absent or no text.
unfoldable pub bearer_token : Option String → Option String
bearer_token none = none
bearer_token (some value) = trimmed (strip_prefix "Bearer " value)

-- `HashSet::contains`
abbrev pub contains : List String → String → Bool
contains ids id = any (λ x. x == id) ids

unfoldable pub visible_datasets : Option (List String) → List Dataset → List Dataset
visible_datasets none datasets = datasets
visible_datasets (some allowed_ids) datasets = filter (λ d. contains allowed_ids d.id) datasets

abbrev pub is_disabled : DspAuthMode → Bool
is_disabled disabled = true
is_disabled bearer = false
is_disabled dcp = false

module _ (P : Platform) where
  open P use {World}

  -- `catalog_access`, a map from a token to a set of dataset ids, by its lookups
  pub record DspAuthConfig : Type 0 where
    pub mode : DspAuthMode
    pub catalog_access : String → Option (List String)
    pub dcp : Option (DcpConfig P)

  unfoldable pub unauthorized_response : World → Reply × World
  unauthorized_response world =
      let (e, world') = unauthorized P world in (reply 401 (catalog_error_body e), world')

  abbrev refuse : World → Result (Option (List String)) Reply × World
  refuse world = let (r, world') = unauthorized_response world in (err r, world')

  -- What the verifier's outcome means for the request
  abbrev pub verified_access :
      Result (VerifiedCaller P) String × World → Result (Option (List String)) Reply × World
  verified_access (ok verified, world) = (ok (some verified.catalog_access), world)
  verified_access (err e, world) = refuse world

  -- `DspAuthMode::Dcp` always carries a configuration, or the `expect` panics.
  abbrev pub dcp_access :
      Option (DcpConfig P) → String → World → Result (Option (List String)) Reply × World
  dcp_access none token world = (err panicked, world)
  dcp_access (some config) token world =
      verified_access (verify_dcp_bearer_token P token config world)

  abbrev pub authorize_token :
      DspAuthMode → DspAuthConfig → String → World → Result (Option (List String)) Reply × World
  authorize_token disabled auth token world = (err panicked, world)
  authorize_token bearer auth token world =
      (ok (some (unwrap_or (auth.catalog_access token) [])), world)
  authorize_token dcp auth token world = dcp_access auth.dcp token world

  abbrev pub authorize_bearer :
      Option String → DspAuthConfig → World → Result (Option (List String)) Reply × World
  authorize_bearer none auth world = refuse world
  authorize_bearer (some token) auth world = authorize_token auth.mode auth token world

  unfoldable pub authorize :
      DspAuthConfig → Option String → World → Result (Option (List String)) Reply × World
  unfolding bearer_token
  authorize auth header world =
      if is_disabled auth.mode
      then (ok none, world)
      else authorize_bearer (bearer_token header) auth world
