-- ===== src/Testbed.antt =====
-- A small outside world for the tests: there are five byte strings, one key, and a clock that ticks
-- with every random id; one document answers every request, and one payload is what every signed
-- token reads as.
use federated_catalog_rs.Prelude.{
  ℕ, suc, String, ◌≡◌, refl, ap, Option, none, some, List, [], ◌∷◌, map, Result, ok, err, ◌==◌,
  if◌then◌else◌,
}
use federated_catalog_rs.Text.Splitting.{Lacks, lacks-Lacks}
use federated_catalog_rs.Json.{
  Value, Items, to_list, of_list, get, get_str, get_array, lookup, unwrap_or,
}
use federated_catalog_rs.Did.{Jwk, VerificationMethod, DidService, DidDocument}
use federated_catalog_rs.Platform.{Platform}
use federated_catalog_rs.Dcp.Jws.{jws_header}
use federated_catalog_rs.Dcp.Jws.Laws.{IsFaithful}
use federated_catalog_rs.Dcp.Documents.{did_document, service_value}
use federated_catalog_rs.Dcp.Documents.Laws.{HasP256Keys, ReadsDocuments, published, service_of}

pub data Bytes : Type 0 where
  header_bytes payload_bytes signature_bytes coordinate_bytes key_bytes : Bytes

abbrev pub encode : Bytes → String
encode header_bytes = "h"
encode payload_bytes = "p"
encode signature_bytes = "s"
encode coordinate_bytes = "c"
encode key_bytes = "k"

abbrev decode_if : List Bytes → String → Result Bytes String
decode_if [] s = err "invalid"
decode_if (b ∷ bs) s = let rest = decode_if bs s in if encode b == s then ok b else rest

abbrev pub decode : String → Result Bytes String
decode s =
    decode_if (header_bytes ∷ payload_bytes ∷ signature_bytes ∷ coordinate_bytes ∷ key_bytes ∷ []) s

abbrev items_of : Option Items → List Value
items_of none = []
items_of (some vs) = to_list vs

unfoldable text_at : String → Value → String
unfolding get_str get lookup
text_at key v = unwrap_or (get_str key v) ""

unfoldable read_jwk : Option Value → Option Jwk
unfolding text_at
read_jwk none = none
read_jwk (some v) = some (record { x = text_at "x" v; y = text_at "y" v })

unfoldable read_methods : List Value → List VerificationMethod
unfolding text_at read_jwk get lookup
read_methods [] = []
read_methods (v ∷ vs) =
    record { id = text_at "id" v; public_key_jwk = read_jwk (get "publicKeyJwk" v) }
    ∷ read_methods vs

unfoldable read_services : List Value → List DidService
unfolding text_at
read_services [] = []
read_services (v ∷ vs) =
    record { ty = text_at "type" v; service_endpoint = text_at "serviceEndpoint" v }
    ∷ read_services vs

unfoldable pub read_document : Value → Result DidDocument String
unfolding read_methods read_services get_array get lookup
read_document v = ok (record {
  verification_method = read_methods (items_of (get_array "verificationMethod" v));
  service = read_services (items_of (get_array "service" v));
})

-- A header is the one document that has an `alg`.
unfoldable pub print : Value → String
unfolding get lookup
print v = elim (get "alg" v) [ some a ↦ "H" | none ↦ "P" ]

module _ (kid : String) (payload : Value) (response : Value) where
  abbrev pub read : Bytes → Result Value String
  read header_bytes = ok (jws_header kid)
  read payload_bytes = ok payload
  read signature_bytes = err "not JSON"
  read coordinate_bytes = err "not JSON"
  read key_bytes = err "not JSON"

  abbrev pub testbed : Platform
  testbed = record {
    World = ℕ;
    now_secs = λ w. (w, w);
    new_uuid = λ w. ("uuid", suc w);
    send = λ r w. (ok (record { status = 200; json = ok response; text = ok "" }), w);
    status_to_string = λ n. "status";
    Bytes = Bytes;
    utf8 = λ s. if s == "H" then header_bytes else payload_bytes;
    len = λ b. 32;
    b64_encode = encode;
    base64_decode = decode;
    json_to_string = print;
    json_from_slice = read;
    presentation_from_value = λ v. ok ("h.p.s" ∷ []);
    did_document_from_value = read_document;
    SigningKey = Unit;
    VerifyingKey = Unit;
    Signature = Unit;
    random_key = λ w. (tt, w);
    key_to_bytes = λ k. key_bytes;
    key_from_bytes = λ b. tt;
    verifying_key_of = λ k. tt;
    key_x = λ v. coordinate_bytes;
    key_y = λ v. coordinate_bytes;
    public_key_from_xy = λ x y. some tt;
    sign = λ k m. tt;
    signature_to_bytes = λ s. signature_bytes;
    signature_from_slice = λ b. ok tt;
    verify = λ v m s. ok tt;
  }

  decode-encode : (b : Bytes) → decode (encode b) ≡ ok b
  decode-encode header_bytes = refl
  decode-encode payload_bytes = refl
  decode-encode signature_bytes = refl
  decode-encode coordinate_bytes = refl
  decode-encode key_bytes = refl

  encode-Lacks : (b : Bytes) → Lacks b'.' (encode b)
  encode-Lacks header_bytes = lacks-Lacks b'.' "h" refl
  encode-Lacks payload_bytes = lacks-Lacks b'.' "p" refl
  encode-Lacks signature_bytes = lacks-Lacks b'.' "s" refl
  encode-Lacks coordinate_bytes = lacks-Lacks b'.' "c" refl
  encode-Lacks key_bytes = lacks-Lacks b'.' "k" refl

  pub testbed-IsFaithful : IsFaithful testbed
  testbed-IsFaithful = record {
    base64_roundtrip = decode-encode;
    base64_alphabet = encode-Lacks;
    signature_roundtrip = λ s. refl;
    sign_verify = λ k m. refl;
  }

  pub testbed-HasP256Keys : HasP256Keys testbed
  testbed-HasP256Keys = record {
    key_roundtrip = λ k. refl;
    point_roundtrip = λ v. refl;
    x_length = λ v. refl;
    y_length = λ v. refl;
  }

  read_services-of :
      (services : List (String × String))
      → read_services (to_list (of_list (map (service_value testbed) services)))
        ≡ map service_of services
  unfolding read_services text_at get_str get lookup
  read_services-of [] = refl
  read_services-of (s ∷ ss) = ap (◌∷◌ (service_of s)) (read_services-of ss)

  pub testbed-ReadsDocuments : ReadsDocuments testbed
  unfolding read_document read_methods read_jwk text_at did_document get_str get_array get lookup
  testbed-ReadsDocuments pair services =
      ap
        (λ ss. ok (record {
          verification_method = (published testbed pair services).verification_method;
          service = ss;
        }))
        (read_services-of services)
