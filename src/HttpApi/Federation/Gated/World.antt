-- ===== src/HttpApi/Federation/Gated/World.antt =====
-- A small outside world that reads back the tokens of one exchange: a byte string is one of nine,
-- and one document answers every request.
use federated_catalog_rs.Prelude.{
  ℕ, suc, String, ◌≡◌, refl, List, [], ◌∷◌, Result, ok, err, some, ◌==◌, if◌then◌else◌,
}
use federated_catalog_rs.Text.{◌+++◌}
use federated_catalog_rs.Text.Splitting.{Lacks, lacks-Lacks}
use federated_catalog_rs.Json.{Value, obj, arr, nat, string, get, lookup}
use federated_catalog_rs.Store.Contract.{is_some}
use federated_catalog_rs.Platform.{Platform}
use federated_catalog_rs.Testbed.{testbed, read_document}
use federated_catalog_rs.Dcp.Jws.{jws_header}
use federated_catalog_rs.Dcp.Jws.Laws.{IsFaithful}
use federated_catalog_rs.Dcp.Documents.Laws.{HasP256Keys}
use federated_catalog_rs.Dcp.Holder.{t1_payload, vp_payload}

abbrev pub elsewhere : Platform
elsewhere = testbed "kid" (obj []) (obj [])

abbrev pub own_did : String
own_did = "did:web:localhost%3A80:dsp:holder"

abbrev pub header : Value
header = jws_header (own_did +++ "#dsp-key")

-- The crawler's token for `did:web:verifier`, minted at time 7
abbrev pub minted_claims : Value
minted_claims = t1_payload elsewhere own_did "did:web:verifier" "h.n.s" 7 "uuid"

abbrev pub presentation_claims : Value
presentation_claims = vp_payload elsewhere own_did "h.c.s" 8 "uuid"

abbrev pub credential_claims : Value
credential_claims = obj (
    ("exp", nat 1000)
    ∷ ("iss", string "did:web:issuer")
    ∷ (
      "vc",
      obj (
          ("credentialSubject", obj (("catalogAccess", arr (string "CAT0101" ∷ [])) ∷ []))
          ∷ ("type", arr (string "FederatedCatalogAccessCredential" ∷ []))
          ∷ []),
    )
    ∷ [])

-- A query for the holder's presentation
abbrev pub query_claims : Value
query_claims =
    obj (("aud", string own_did) ∷ ("exp", nat 1000) ∷ ("iss", string "did:web:verifier") ∷ [])

-- The document of every DID
abbrev pub document : Value
document = obj (
    (
      "service",
      arr (
          obj (
            ("serviceEndpoint", string "http://localhost:80/dsp/holder")
            ∷ ("type", string "CredentialService")
            ∷ [])
          ∷ []),
    )
    ∷ (
      "verificationMethod",
      arr (
          obj (
            ("id", string "did:web:localhost%3A80:dsp:holder#dsp-key")
            ∷ ("publicKeyJwk", obj (("x", string "x") ∷ ("y", string "x") ∷ []))
            ∷ [])
          ∷ []),
    )
    ∷ [])

pub data Bytes : Type 0 where
  header_bytes minted_bytes nested_bytes presentation_bytes credential_bytes query_bytes : Bytes
  signature_bytes coordinate_bytes key_bytes : Bytes

abbrev pub encode : Bytes → String
encode header_bytes = "h"
encode minted_bytes = "m"
encode nested_bytes = "n"
encode presentation_bytes = "p"
encode credential_bytes = "c"
encode query_bytes = "q"
encode signature_bytes = "s"
encode coordinate_bytes = "x"
encode key_bytes = "k"

abbrev pub all_bytes : List Bytes
all_bytes =
    header_bytes ∷ minted_bytes ∷ nested_bytes ∷ presentation_bytes ∷ credential_bytes ∷ query_bytes
    ∷ signature_bytes ∷ coordinate_bytes ∷ key_bytes ∷ []

abbrev pub decode_if : List Bytes → String → Result Bytes String
decode_if [] s = err "invalid"
decode_if (b ∷ bs) s = let rest = decode_if bs s in if encode b == s then ok b else rest

-- Texts are told apart by a member that only they have.
unfoldable pub print : Value → String
unfolding get lookup
print v =
    if is_some (get "alg" v)
    then "H"
    else if is_some (get "token" v)
    then "M"
    else if is_some (get "vp" v)
    then "P"
    else "N"

abbrev pub utf8 : String → Bytes
utf8 s =
    if s == "H"
    then header_bytes
    else if s == "M"
    then minted_bytes
    else if s == "P"
    then presentation_bytes
    else nested_bytes

abbrev pub read : Bytes → Result Value String
read header_bytes = ok header
read minted_bytes = ok minted_claims
read presentation_bytes = ok presentation_claims
read credential_bytes = ok credential_claims
read query_bytes = ok query_claims
read b = err "not JSON"

abbrev pub world : Platform
world = record {
  World = ℕ;
  now_secs = λ w. (w, w);
  new_uuid = λ w. ("uuid", suc w);
  send = λ r w. (ok (record { status = 200; json = ok document; text = ok "" }), w);
  status_to_string = λ n. "status";
  Bytes = Bytes;
  utf8 = utf8;
  len = λ b. 32;
  b64_encode = encode;
  base64_decode = decode_if all_bytes;
  json_to_string = print;
  json_from_slice = read;
  presentation_from_value = λ v. ok ("h.p.s" ∷ []);
  did_document_from_value = read_document;
  SigningKey = Unit;
  VerifyingKey = Unit;
  Signature = Unit;
  random_key = λ w. (tt, w);
  key_to_bytes = λ k. key_bytes;
  key_from_bytes = λ b. tt;
  verifying_key_of = λ k. tt;
  key_x = λ v. coordinate_bytes;
  key_y = λ v. coordinate_bytes;
  public_key_from_xy = λ x y. some tt;
  sign = λ k m. tt;
  signature_to_bytes = λ s. signature_bytes;
  signature_from_slice = λ b. ok tt;
  verify = λ v m s. ok tt;
}

decode-encode : (b : Bytes) → decode_if all_bytes (encode b) ≡ ok b
decode-encode header_bytes = refl
decode-encode minted_bytes = refl
decode-encode nested_bytes = refl
decode-encode presentation_bytes = refl
decode-encode credential_bytes = refl
decode-encode query_bytes = refl
decode-encode signature_bytes = refl
decode-encode coordinate_bytes = refl
decode-encode key_bytes = refl

encode-Lacks : (b : Bytes) → Lacks b'.' (encode b)
encode-Lacks header_bytes = lacks-Lacks b'.' "h" refl
encode-Lacks minted_bytes = lacks-Lacks b'.' "m" refl
encode-Lacks nested_bytes = lacks-Lacks b'.' "n" refl
encode-Lacks presentation_bytes = lacks-Lacks b'.' "p" refl
encode-Lacks credential_bytes = lacks-Lacks b'.' "c" refl
encode-Lacks query_bytes = lacks-Lacks b'.' "q" refl
encode-Lacks signature_bytes = lacks-Lacks b'.' "s" refl
encode-Lacks coordinate_bytes = lacks-Lacks b'.' "x" refl
encode-Lacks key_bytes = lacks-Lacks b'.' "k" refl

pub faithful : IsFaithful world
faithful = record {
  base64_roundtrip = decode-encode;
  base64_alphabet = encode-Lacks;
  signature_roundtrip = λ s. refl;
  sign_verify = λ k m. refl;
}

pub keys : HasP256Keys world
keys = record {
  key_roundtrip = λ k. refl;
  point_roundtrip = λ v. refl;
  x_length = λ v. refl;
  y_length = λ v. refl;
}
