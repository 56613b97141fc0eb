-- ===== src/HttpApi/Verifier/Tests.antt =====
-- The theorems on the verifier at concrete inputs.
use federated_catalog_rs.Prelude.{
  ℕ, suc, ◌<◌, err, String, ◌≡◌, refl, true, false, some, [], ◌∷◌, ok, arith,
}
use mathlib.Core.List.{Memᴰ}
use federated_catalog_rs.Text.{split, join, strip_prefix, replace}
use federated_catalog_rs.Json.{
  Value, obj, arr, nat, string, unwrap_or, null, get_str, get_u64, get_array, get, lookup,
}
use federated_catalog_rs.Did.{DidDocument}
use federated_catalog_rs.Platform.{Platform}
use federated_catalog_rs.Testbed
use federated_catalog_rs.Testbed.{testbed, testbed-IsFaithful, testbed-HasP256Keys}
use federated_catalog_rs.Dcp.Jws.{
  decode_jws_unverified, verify_jws_signature, b64_decode, sign_jws, jws_header,
}
use federated_catalog_rs.Dcp.DidWeb.{did_web_to_url, urlencoding_decode}
use federated_catalog_rs.Dcp.Documents.{
  find_verifying_key, jwk_to_verifying_key, service_endpoint_url, signing_key, generate,
}
use federated_catalog_rs.Dcp.Resolve.{resolve_did}
use federated_catalog_rs.HttpApi.Verifier.{
  DcpConfig, VerifiedCaller, verify_dcp_bearer_token, verify_token, query_presentation,
  presented_credentials, check_credentials, check_credential, granted,
}
use federated_catalog_rs.Dcp.Holder.{HolderIdentity, answer_presentation_query}
use federated_catalog_rs.Dcp.Documents.Laws.{published}
use federated_catalog_rs.HttpApi.Verifier.Exchange.{pair_of, answer_presentation_query-query}
use federated_catalog_rs.HttpApi.Verifier.Credentials.{
  IsAuthentic, Audit, finished, checked, fresh, expired,
}
use federated_catalog_rs.HttpApi.Verifier.Grants.{Grants, access, a_text, no_values}
use federated_catalog_rs.HttpApi.Verifier.Presented.{Returned, IsPresented}
use federated_catalog_rs.HttpApi.Verifier.Acceptance.{
  verify_dcp_bearer_token-Audit, verify_dcp_bearer_token-expired,
}
use federated_catalog_rs.HttpApi.Verifier.Laws.{
  IsCaller, Accepted, verify_dcp_bearer_token-IsCaller,
}

-- One payload serves as the caller's token, its presentation and its credential.
abbrev claims : Value
claims = obj (
    ("aud", string "did:web:verifier")
    ∷ ("exp", nat 1000)
    ∷ ("iss", string "did:web:caller")
    ∷ ("token", string "t2")
    ∷ (
      "vc",
      obj (
          ("credentialSubject", obj (("catalogAccess", arr (string "CAT0101" ∷ [])) ∷ []))
          ∷ ("type", arr (string "FederatedCatalogAccessCredential" ∷ []))
          ∷ []),
    )
    ∷ ("vp", obj (("verifiableCredential", arr (string "h.p.s" ∷ [])) ∷ []))
    ∷ [])

abbrev caller_document : Value
caller_document = obj (
    (
      "service",
      arr (
          obj (
            ("serviceEndpoint", string "http://caller") ∷ ("type", string "CredentialService") ∷ [])
          ∷ []),
    )
    ∷ (
      "verificationMethod",
      arr (
          obj (
            ("id", string "kid")
            ∷ ("publicKeyJwk", obj (("x", string "c") ∷ ("y", string "c") ∷ []))
            ∷ [])
          ∷ []),
    )
    ∷ [])

abbrev caller_doc : DidDocument
caller_doc = record {
  verification_method =
      record { id = "kid"; public_key_jwk = some (record { x = "c"; y = "c" }) } ∷ [];
  service = record { ty = "CredentialService"; service_endpoint = "http://caller" } ∷ [];
}

abbrev world : Platform
world = testbed "kid" claims caller_document

abbrev verifier : DcpConfig world
verifier = record {
  key_pair = record {
    own_did = "did:web:verifier";
    own_key_id = "did:web:verifier#dsp-key";
    signing_key_bytes = Testbed.key_bytes;
    public_key_xy = (Testbed.coordinate_bytes, Testbed.coordinate_bytes);
  };
  insecure_http = true;
  required_scope = "scope";
}

abbrev caller : VerifiedCaller world
caller = record { holder_did = "did:web:caller"; catalog_access = "CAT0101" ∷ [] }

verifier_tests : Unit {0}
unfolding split join strip_prefix replace get_str get_u64 get_array get lookup decode_jws_unverified
    verify_jws_signature b64_decode did_web_to_url urlencoding_decode resolve_did find_verifying_key
    jwk_to_verifying_key service_endpoint_url sign_jws signing_key Testbed.print
    Testbed.read_document verify_dcp_bearer_token verify_token query_presentation
    presented_credentials check_credentials check_credential granted
verifier_tests = tt

verifies : verify_dcp_bearer_token world "h.p.s" verifier 7 ≡ (ok caller, 8)
unfolding verifier_tests
verifies = refl

verify_dcp_bearer_token-IsCaller_example :
    Accepted world "h.p.s" verifier 7 "did:web:caller" ("CAT0101" ∷ []) 8
verify_dcp_bearer_token-IsCaller_example =
    verify_dcp_bearer_token-IsCaller world "h.p.s" verifier 7 caller 8 verifies

authentic : (w : ℕ) → IsAuthentic world true "h.p.s" "did:web:caller" claims w
unfolding verifier_tests
authentic w = record {
  signing_input = "h.p";
  header = jws_header "kid";
  kid = "kid";
  doc = caller_doc;
  key = tt;
  w1 = w;
  decoded = refl;
  has_iss = refl;
  has_kid = refl;
  resolved = refl;
  listed = refl;
  verified = refl;
}

identified : (w : ℕ) → w < 1000 → IsCaller world "h.p.s" verifier w "did:web:caller" caller_doc
unfolding authentic verifier_tests
identified w early = record {
  payload = claims;
  signed = record { authentic = authentic w; unexpired = early };
  document = refl;
  addressed = refl;
}

-- The clock has ticked once when the answer to the query is there.
returned : (w : ℕ) → Returned world verifier "did:web:caller" caller_doc claims w "h.p.s" (suc w)
unfolding verifier_tests
returned w = record {
  nested = "t2";
  base = "http://caller";
  response = record { status = 200; json = ok caller_document; text = ok "" };
  message = caller_document;
  others = [];
  has_token = refl;
  has_service = refl;
  answered = refl;
  succeeded = refl;
  is_json = refl;
  read = refl;
}

presented : IsPresented world caller_doc "h.p.s" (string "h.p.s" ∷ [])
unfolding verifier_tests
presented = record {
  signing_input = "h.p";
  header = jws_header "kid";
  payload = claims;
  kid = "kid";
  key = tt;
  first = string "h.p.s";
  others = [];
  decoded = refl;
  has_kid = refl;
  listed = refl;
  verified = refl;
  contents = refl;
  some_credential = refl;
}

grants : Grants (unwrap_or (get "vc" claims) null) ("CAT0101" ∷ [])
unfolding verifier_tests
grants =
    access (string "FederatedCatalogAccessCredential", Memᴰ.head refl, refl) (a_text refl no_values)

audits : Audit world true (string "h.p.s" ∷ []) 8 ("CAT0101" ∷ []) false 8
unfolding authentic verifier_tests
audits =
    checked
      (fresh "h.p.s" "did:web:caller" claims refl
        (record { authentic = authentic 8; unexpired = omega arith }) grants)
      finished

expires : Audit world true (string "h.p.s" ∷ []) 1000 [] true 1000
unfolding authentic verifier_tests
expires =
    checked (expired "h.p.s" "did:web:caller" claims refl (authentic 1000) (omega arith)) finished

verify_dcp_bearer_token-Audit_example :
    verify_dcp_bearer_token world "h.p.s" verifier 7 ≡ (ok caller, 8)
unfolding identified authentic
verify_dcp_bearer_token-Audit_example =
    verify_dcp_bearer_token-Audit world "h.p.s" verifier 7 "did:web:caller" caller_doc
      (identified 7 (omega arith)) "h.p.s" (string "h.p.s" ∷ []) 8 8 ("CAT0101" ∷ []) false
      (returned 7) presented audits (λ h k. ground (arith, h))

-- At time 999 the token is still valid, but the credential expires before it is checked.
verify_dcp_bearer_token-expired_example :
    verify_dcp_bearer_token world "h.p.s" verifier 999
    ≡ (err "all presented credentials are expired", 1000)
unfolding identified authentic
verify_dcp_bearer_token-expired_example =
    verify_dcp_bearer_token-expired world "h.p.s" verifier 999 "did:web:caller" caller_doc
      (identified 999 (omega arith)) "h.p.s" (string "h.p.s" ∷ []) 1000 1000 (returned 999)
      presented expires

-- The payload of the query that a verifier, `did:web:verifier`, sends to a holder at time 7
abbrev query_payload : Value
query_payload = obj (
    ("aud", string "did:web:holder")
    ∷ ("exp", nat 307)
    ∷ ("iat", nat 7)
    ∷ ("iss", string "did:web:verifier")
    ∷ ("jti", string "uuid")
    ∷ ("nbf", nat 7)
    ∷ ("sub", string "did:web:verifier")
    ∷ ("token", string "t2")
    ∷ [])

-- The document that the verifier publishes
abbrev verifier_document : Value
verifier_document = obj (
    ("service", arr [])
    ∷ (
      "verificationMethod",
      arr (
          obj (
            ("id", string "did:web:verifier#dsp-key")
            ∷ ("publicKeyJwk", obj (("x", string "c") ∷ ("y", string "c") ∷ []))
            ∷ [])
          ∷ []),
    )
    ∷ [])

abbrev exchange : Platform
exchange = testbed "did:web:verifier#dsp-key" query_payload verifier_document

abbrev holder : HolderIdentity exchange
holder = record {
  key_pair = record {
    own_did = "did:web:holder";
    own_key_id = "did:web:holder#dsp-key";
    signing_key_bytes = Testbed.key_bytes;
    public_key_xy = (Testbed.coordinate_bytes, Testbed.coordinate_bytes);
  };
  own_did_host = "holder";
  insecure_http = true;
  credential_jws = "h.p.s";
  required_scope = "scope";
}

resolves :
    resolve_did exchange "did:web:verifier" true 7
    ≡ (ok (published exchange (pair_of exchange "did:web:verifier" 0) []), 7)
unfolding verifier_tests generate
resolves = refl

answer_presentation_query-query_example :
    (vp : String) × (w2 : ℕ) × (answer_presentation_query exchange holder "h.p.s" 7
      ≡ (ok (vp ∷ []), w2))
    × (verify_jws_signature exchange vp tt ≡ ok tt)
unfolding verifier_tests generate
answer_presentation_query-query_example =
    answer_presentation_query-query exchange
      (testbed-IsFaithful "did:web:verifier#dsp-key" query_payload verifier_document)
      (testbed-HasP256Keys "did:web:verifier#dsp-key" query_payload verifier_document) holder
      "did:web:verifier" "t2" "uuid" [] 7 0 7 7 refl refl resolves (omega arith)
