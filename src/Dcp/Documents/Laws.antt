-- ===== src/Dcp/Documents/Laws.antt =====
-- The document that a key pair publishes has the pair's public key, and the services.
use federated_catalog_rs.Prelude.{String, ◌≡◌, some, List, [], ◌∷◌, map, ok, eq_refl}
use federated_catalog_rs.Did.{DidService, DidDocument}
use federated_catalog_rs.Platform.{Platform}
use federated_catalog_rs.Dcp.Jws.Laws.{IsFaithful, b64_decode-encode}
use federated_catalog_rs.Dcp.Documents.{
  DcpKeyPair, generate, signing_key, did_document, find_verifying_key, jwk_to_verifying_key,
}

abbrev pub service_of : String × String → DidService
service_of (ty, endpoint) = record { ty = ty; service_endpoint = endpoint }

-- What a reader is to find in the document of a key pair
abbrev pub published : (P : Platform) → DcpKeyPair P → List (String × String) → DidDocument
published P pair services = record {
  verification_method =
      record {
        id = pair.own_key_id;
        public_key_jwk = some (record {
          x = P.b64_encode pair.public_key_xy.0;
          y = P.b64_encode pair.public_key_xy.1;
        });
      }
      ∷ [];
  service = map service_of services;
}

-- The derived `Deserialize`, on the documents that the program writes
abbrev pub ReadsDocuments : Platform → Type 0
ReadsDocuments P =
    (pair : DcpKeyPair P) (services : List (String × String))
    → P.did_document_from_value (did_document P pair services) ≡ ok (published P pair services)

-- The documented behaviour of p256 keys: a key and a point survive their encoding, and a
-- coordinate has 32 bytes.
pub record HasP256Keys (P : Platform) : Type 0 where
  pub key_roundtrip : (k : P.SigningKey) → P.key_from_bytes (P.key_to_bytes k) ≡ k
  pub point_roundtrip : (v : P.VerifyingKey) → P.public_key_from_xy (P.key_x v) (P.key_y v) ≡ some v
  pub x_length : (v : P.VerifyingKey) → P.len (P.key_x v) ≡ 32
  pub y_length : (v : P.VerifyingKey) → P.len (P.key_y v) ≡ 32

module _ (P : Platform) (faithful : IsFaithful P) (keys : HasP256Keys P) where
  -- The key that a reader finds in the document of a new key pair is the public key that matches
  -- the pair's signing key.
  pub find_verifying_key-generate :
      (own_did : String) (w : P.World) (services : List (String × String))
      → let pair = (generate P own_did w).0 in
        find_verifying_key P (published P pair services) pair.own_key_id
        ≡ ok (P.verifying_key_of (signing_key P pair))
  unfolding generate signing_key find_verifying_key jwk_to_verifying_key
  find_verifying_key-generate own_did w services =
      let v = P.verifying_key_of (P.random_key w).0 in
      rw (
        eq_refl,
        b64_decode-encode P faithful (P.key_x v),
        b64_decode-encode P faithful (P.key_y v),
        keys.x_length,
        keys.y_length,
        keys.point_roundtrip,
        keys.key_roundtrip,
      )
