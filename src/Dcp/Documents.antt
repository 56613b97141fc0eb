-- ===== src/Dcp/Documents.antt =====
-- The keys and services of a DID document, and the document that a key pair publishes.
pub mod Laws
use federated_catalog_rs.Prelude.{
  String, ◌||◌, not, Option, List, [], ◌∷◌, map, Result, ok, err, ok_or, ◌>>=◌, ◌>>◌, eqb, find,
  if◌then◌else◌, ◌==◌,
}
use federated_catalog_rs.Text.{◌+++◌}
use federated_catalog_rs.Json.{Value, obj, arr, string}
use federated_catalog_rs.Did.{Jwk, VerificationMethod, DidService, DidDocument}
use federated_catalog_rs.Platform.{Platform}
use federated_catalog_rs.Dcp.Jws.{b64_decode}

unfoldable pub service_endpoint_url : DidDocument → String → Result String String
service_endpoint_url doc service_type = do
  s ←
      ok_or (find (λ s. s.ty == service_type) doc.service)
        ("DID document has no " +++ service_type +++ " entry")
  ok s.service_endpoint

module _ (P : Platform) where
  open P use {
    World, Bytes, VerifyingKey, SigningKey, b64_encode, len, public_key_from_xy, random_key,
    key_to_bytes, key_from_bytes, key_x, key_y, verifying_key_of,
  }

  unfoldable pub jwk_to_verifying_key : Jwk → Result VerifyingKey String
  jwk_to_verifying_key jwk = do
    x ← b64_decode P jwk.x
    y ← b64_decode P jwk.y
    if not (eqb (len x) 32) || not (eqb (len y) 32)
        then err "EC JWK x/y must be 32 bytes for P-256"
        else ok_or (public_key_from_xy x y) "invalid EC point in JWK"

  unfoldable pub find_verifying_key : DidDocument → String → Result VerifyingKey String
  unfolding jwk_to_verifying_key
  find_verifying_key doc kid = do
    method ←
        ok_or (find (λ m. m.id == kid) doc.verification_method)
          ("no verification method '" +++ kid +++ "' in DID document")
    jwk ← ok_or method.public_key_jwk ("verification method '" +++ kid +++ "' has no publicKeyJwk")
    jwk_to_verifying_key jwk

  pub record DcpKeyPair : Type 0 where
    pub own_did : String
    pub own_key_id : String
    pub signing_key_bytes : Bytes
    pub public_key_xy : Bytes × Bytes

  unfoldable pub generate : String → World → DcpKeyPair × World
  generate own_did world =
      let (signing_key, world') = random_key world in
      let verifying_key = verifying_key_of signing_key in
      (
        record {
          own_did = own_did;
          own_key_id = own_did +++ "#dsp-key";
          signing_key_bytes = key_to_bytes signing_key;
          public_key_xy = (key_x verifying_key, key_y verifying_key);
        },
        world',
      )

  unfoldable pub signing_key : DcpKeyPair → SigningKey
  signing_key pair = key_from_bytes pair.signing_key_bytes

  abbrev pub service_value : String × String → Value
  service_value (ty, endpoint) =
      obj (("serviceEndpoint", string endpoint) ∷ ("type", string ty) ∷ [])

  abbrev pub public_key_jwk : DcpKeyPair → Value
  public_key_jwk pair = obj (
      ("crv", string "P-256")
      ∷ ("kty", string "EC")
      ∷ ("x", string (b64_encode pair.public_key_xy.0))
      ∷ ("y", string (b64_encode pair.public_key_xy.1))
      ∷ [])

  unfoldable pub did_document : DcpKeyPair → List (String × String) → Value
  did_document pair services = obj (
      ("@context", arr (string "https://www.w3.org/ns/did/v1" ∷ []))
      ∷ ("id", string pair.own_did)
      ∷ ("service", arr (map service_value services))
      ∷ (
        "verificationMethod",
        arr (
            obj (
              ("controller", string pair.own_did)
              ∷ ("id", string pair.own_key_id)
              ∷ ("publicKeyJwk", public_key_jwk pair)
              ∷ ("type", string "JsonWebKey2020")
              ∷ [])
            ∷ []),
      )
      ∷ [])
