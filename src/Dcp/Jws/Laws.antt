-- ===== src/Dcp/Jws/Laws.antt =====
-- A signed token decodes to what was signed, and its signature verifies.
use text.Mathlib.TextLemmas.{append_assoc, cons-append, nil-append}
use federated_catalog_rs.Prelude.{String, ◌≡◌, ap, ◌∙◌, [], ◌∷◌, ok}
use federated_catalog_rs.Text.{split, ◌+++◌}
use federated_catalog_rs.Text.Splitting.{Lacks, split-append, split-Lacks}
use federated_catalog_rs.Json.{Value}
use federated_catalog_rs.Platform.{Platform}
use federated_catalog_rs.Dcp.Jws.{
  b64_decode, decode_jws_unverified, verify_jws_signature, jws_header, sign_jws,
}

-- The documented behaviour of base64url and of ECDSA over P-256
pub record IsFaithful (P : Platform) : Type 0 where
  pub base64_roundtrip : (b : P.Bytes) → P.base64_decode (P.b64_encode b) ≡ ok b
  pub base64_alphabet : (b : P.Bytes) → Lacks b'.' (P.b64_encode b)
  pub signature_roundtrip :
      (s : P.Signature) → P.signature_from_slice (P.signature_to_bytes s) ≡ ok s
  pub sign_verify :
      (k : P.SigningKey) (m : P.Bytes) → P.verify (P.verifying_key_of k) m (P.sign k m) ≡ ok tt

-- serde_json reads the value back from the text that it writes for it.
abbrev pub ReadsBack : Platform → Value → Type 0
ReadsBack P v = P.json_from_slice (P.utf8 (P.json_to_string v)) ≡ ok v

dot_append : (s : String) → "." +++ s ≡ String.◌∷◌ "." s
dot_append s = cons-append "." "" s ∙ ap (String.◌∷◌ ".") (nil-append s)

joined :
    (h p s : String)
    → (h +++ "." +++ p) +++ "." +++ s ≡ h +++ String.◌∷◌ "." (p +++ String.◌∷◌ "." s)
joined h p s =
    append_assoc h ("." +++ p) ("." +++ s)
    ∙ ap (◌+++◌ h) (
        append_assoc "." p ("." +++ s)
        ∙ dot_append (p +++ "." +++ s)
        ∙ ap (λ t. String.◌∷◌ "." (p +++ t)) (dot_append s))

split_three :
    (h p s : String)
    → Lacks b'.' h
    → Lacks b'.' p
    → Lacks b'.' s
    → split b'.' ((h +++ "." +++ p) +++ "." +++ s) ≡ h ∷ p ∷ s ∷ []
split_three h p s a b c =
    ap (split b'.') (joined h p s)
    ∙ split-append "." h (p +++ String.◌∷◌ "." s) a
    ∙ ap (◌∷◌ h) (split-append "." p s b ∙ ap (◌∷◌ p) (split-Lacks b'.' s c))

module _ (P : Platform) (faithful : IsFaithful P) where
  pub b64_decode-encode : (b : P.Bytes) → b64_decode P (P.b64_encode b) ≡ ok b
  unfolding b64_decode
  b64_decode-encode b = rw (faithful.base64_roundtrip b)

  module _ (payload : Value) (k : P.SigningKey) (kid : String) where
    abbrev header_b64 : String
    header_b64 = P.b64_encode (P.utf8 (P.json_to_string (jws_header kid)))

    abbrev payload_b64 : String
    payload_b64 = P.b64_encode (P.utf8 (P.json_to_string payload))

    abbrev signing_input : String
    signing_input = header_b64 +++ "." +++ payload_b64

    abbrev signature_b64 : String
    signature_b64 = P.b64_encode (P.signature_to_bytes (P.sign k (P.utf8 signing_input)))

    split-sign_jws :
        split b'.' (sign_jws P payload k kid) ≡ header_b64 ∷ payload_b64 ∷ signature_b64 ∷ []
    unfolding sign_jws
    split-sign_jws =
        split_three header_b64 payload_b64 signature_b64 (faithful.base64_alphabet _)
          (faithful.base64_alphabet _) (faithful.base64_alphabet _)

    -- A signed token decodes to its header and its payload, if base64url behaves as documented and
    -- serde_json reads both back.
    pub decode-sign_jws :
        ReadsBack P (jws_header kid)
        → ReadsBack P payload
        → decode_jws_unverified P (sign_jws P payload k kid)
          ≡ ok (header_b64 +++ "." +++ payload_b64, jws_header kid, payload)
    unfolding decode_jws_unverified
    decode-sign_jws h p = rw (split-sign_jws, b64_decode-encode, h, b64_decode-encode, p)

    -- The signature of a signed token verifies under the signer's public key, if base64url and ECDSA
    -- behave as documented.
    pub verify-sign_jws :
        verify_jws_signature P (sign_jws P payload k kid) (P.verifying_key_of k) ≡ ok tt
    unfolding verify_jws_signature
    verify-sign_jws =
        rw (split-sign_jws, b64_decode-encode, faithful.signature_roundtrip, faithful.sign_verify)
