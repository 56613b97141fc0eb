-- ===== src/Dcp/Jws.antt =====
-- Compact JWS: decoding, verification and signing.
pub mod Laws
use federated_catalog_rs.Prelude.{
  String, Option, none, some, List, [], ◌∷◌, Result, ok, err, map_err, ok_or, ◌>>=◌, ◌>>◌,
}
use federated_catalog_rs.Text.{split, ◌+++◌}
use federated_catalog_rs.Json.{Value, obj, string}
use federated_catalog_rs.Platform.{Platform}

-- The segments of a token that has at least three, and what comes after them
abbrev pub segments : List String → Result (String × String × String × List String) String
segments [] = err "missing JWS header"
segments (h ∷ []) = err "missing JWS payload"
segments (h ∷ p ∷ []) = err "missing JWS signature"
segments (h ∷ p ∷ s ∷ rest) = ok (h, p, s, rest)

abbrev pub no_more : List String → Result (Unit {0}) String
no_more [] = ok tt
no_more (x ∷ xs) = err "JWS has more than 3 segments"

-- An object lists its members in the order of their names, as `serde_json::Map` does.
abbrev pub jws_header : String → Value
jws_header kid = obj (("alg", string "ES256") ∷ ("kid", string kid) ∷ [])

module _ (P : Platform) where
  open P use {
    Bytes, SigningKey, VerifyingKey, Signature, b64_encode, base64_decode, utf8, json_from_slice,
    json_to_string, signature_from_slice, verify, sign, signature_to_bytes,
  }

  unfoldable pub b64_decode : String → Result Bytes String
  b64_decode segment = map_err (λ e. "invalid base64url: " +++ e) (base64_decode segment)

  abbrev pub parse_segment : String → Result Value String
  parse_segment segment = do bytes ← b64_decode segment; json_from_slice bytes

  -- (signing input, header, payload), without verifying anything
  unfoldable pub decode_jws_unverified : String → Result (String × Value × Value) String
  decode_jws_unverified token = do
    (header_b64, payload_b64, sig_b64, rest) ← segments (split b'.' token)
    no_more rest
    header ← parse_segment header_b64
    payload ← parse_segment payload_b64
    ok (header_b64 +++ "." +++ payload_b64, header, payload)

  unfoldable pub verify_jws_signature : String → VerifyingKey → Result (Unit {0}) String
  verify_jws_signature token verifying_key = do
    (header_b64, payload_b64, sig_b64, rest) ← segments (split b'.' token)
    sig_bytes ← b64_decode sig_b64
    signature ← map_err (λ e. "malformed signature: " +++ e) (signature_from_slice sig_bytes)
    map_err (λ e. "signature verification failed: " +++ e)
        (verify verifying_key (utf8 (header_b64 +++ "." +++ payload_b64)) signature)

  unfoldable pub sign_jws : Value → SigningKey → String → String
  sign_jws payload signing_key kid =
      let header_b64 = b64_encode (utf8 (json_to_string (jws_header kid))) in
      let payload_b64 = b64_encode (utf8 (json_to_string payload)) in
      let signing_input = header_b64 +++ "." +++ payload_b64 in
      let signature = sign signing_key (utf8 signing_input) in
      signing_input +++ "." +++ b64_encode (signature_to_bytes signature)
