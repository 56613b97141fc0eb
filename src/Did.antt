-- ===== src/Did.antt =====
-- crates/dcp-core/src/lib.rs: the DID document as far as the program reads it.
use federated_catalog_rs.Prelude.{String, Option, List}

pub record Jwk : Type 0 where
  pub x : String
  pub y : String

pub record VerificationMethod : Type 0 where
  pub id : String
  pub public_key_jwk : Option Jwk

pub record DidService : Type 0 where
  pub ty : String
  pub service_endpoint : String

pub record DidDocument : Type 0 where
  pub verification_method : List VerificationMethod
  pub service : List DidService
