-- ===== src/HttpApi/Verifier.antt =====
-- crates/http-api/src/dcp.rs: the verifier's side of DCP. A `HashSet` of dataset ids is the list of
-- what was inserted.
pub mod Grants
pub mod Credentials
pub mod Presented
pub mod Laws
pub mod Acceptance
pub mod Admission
pub mod Exchange
mod Tests
use federated_catalog_rs.Prelude.{
  ℕ, String, Bool, true, false, not, ◌&&◌, Option, none, some, List, [], ◌∷◌, ◌++◌, Result, ok, err,
  ok_or, map_err, any, leb, ◌==◌, if◌then◌else◌,
}
use federated_catalog_rs.Text.{◌+++◌}
use federated_catalog_rs.Json.{
  Value, Items, nil, item, null, to_list, get, get_str, get_u64, get_array, and_then, as_str,
  as_array, obj, arr, string, nat, unwrap_or,
}
use federated_catalog_rs.Did.{DidDocument}
use federated_catalog_rs.Task.{Task, ◌>>=◌, ◌>>◌, lift, pure, always}
use federated_catalog_rs.Platform.{Platform, Request, Response, http_post, is_success}
use federated_catalog_rs.Dcp.Jws.{decode_jws_unverified, verify_jws_signature, sign_jws}
use federated_catalog_rs.Dcp.Documents.{
  DcpKeyPair, generate, did_document, find_verifying_key, signing_key, service_endpoint_url,
}
use federated_catalog_rs.Dcp.Resolve.{resolve_did, send_or}
use federated_catalog_rs.Dcp.Holder.{expiry, t1_payload}

abbrev pub expected_credential_type : String
expected_credential_type = "FederatedCatalogAccessCredential"

-- Whether the `type` of a credential's body names the expected type
abbrev pub is_expected : Value → Bool
is_expected t = elim (as_str t) [ some s ↦ s == expected_credential_type | none ↦ false ]

abbrev pub items_of : Option Items → List Value
items_of none = []
items_of (some vs) = to_list vs

-- The texts among the values, in their order
abbrev pub texts : List Value → List String
texts [] = []
texts (v ∷ vs) = elim (as_str v) [ some s ↦ s ∷ texts vs | none ↦ texts vs ]

-- What a credential's body grants: its `catalogAccess`, if it is of the expected type
unfoldable pub granted : Value → List String
granted vc_body =
    if not (any is_expected (items_of (get_array "type" vc_body)))
    then []
    else texts (items_of (and_then (get "credentialSubject" vc_body) (get_array "catalogAccess")))

module _ (P : Platform) where
  open P use {World, now_secs, new_uuid, status_to_string}

  pub record DcpConfig : Type 0 where
    pub key_pair : DcpKeyPair P
    pub insecure_http : Bool
    pub required_scope : String

  -- `DcpConfig::generate`
  unfoldable pub generate_config : String → Bool → String → World → DcpConfig × World
  generate_config own_did insecure_http required_scope world =
      let (key_pair, world') = generate P own_did world in
      (
        record {
          key_pair = key_pair;
          insecure_http = insecure_http;
          required_scope = required_scope;
        },
        world',
      )

  unfoldable pub own_did_document : DcpConfig → Value
  own_did_document config = did_document P config.key_pair []

  pub record VerifiedCaller : Type 0 where
    pub holder_did : String
    pub catalog_access : List String

  -- The ids that one credential grants, and whether it has expired (it grants nothing then)
  unfoldable pub check_credential : Bool → Value → Task World (List String × Bool) String
  check_credential insecure_http vc_value = do
    vc_jws ← lift (ok_or (as_str vc_value) "verifiableCredential entry was not a string")
    (signing_input, vc_header, vc_payload) ← lift (decode_jws_unverified P vc_jws)
    issuer_did ← lift (ok_or (get_str "iss" vc_payload) "VC has no iss")
    vc_kid ← lift (ok_or (get_str "kid" vc_header) "VC has no kid")
    issuer_doc ← resolve_did P issuer_did insecure_http
    issuer_key ← lift (find_verifying_key P issuer_doc vc_kid)
    lift (verify_jws_signature P vc_jws issuer_key)
    checked_at ← always now_secs
    pure (
        if leb (unwrap_or (get_u64 "exp" vc_payload) 0) checked_at
        then ([], true)
        else (granted (unwrap_or (get "vc" vc_payload) null), false))

  -- The loop over the credentials, with what was granted so far and whether one had expired
  unfoldable pub check_credentials :
      Bool → List Value → List String → Bool → Task World (List String × Bool) String
  unfolding check_credential
  check_credentials insecure_http [] access expired = pure (access, expired)
  check_credentials insecure_http (v ∷ vs) access expired = do
    (ids, late) ← check_credential insecure_http v
    check_credentials insecure_http vs (access ++ ids) (if late then true else expired)

  abbrev pub no_texts : List String → Bool
  no_texts [] = true
  no_texts (x ∷ xs) = false

  -- The caller, unless it was granted nothing while a credential had expired
  abbrev pub verified_caller : String → List String × Bool → Result VerifiedCaller String
  verified_caller holder_did (access, expired) =
      if no_texts access && expired
      then err "all presented credentials are expired"
      else ok (record { holder_did = holder_did; catalog_access = access })

  abbrev pub query_body : String → Value
  query_body scope = obj (
      ("@context", string "https://w3id.org/dspace-dcp/v1.0/dcp.jsonld")
      ∷ ("@type", string "PresentationQueryMessage")
      ∷ ("scope", arr (string scope ∷ []))
      ∷ [])

  abbrev pub presentation_query : String → String → String → Request
  presentation_query query_url token scope = record {
    method = http_post;
    url = query_url;
    authorization = some ("Bearer " +++ token);
    body = some (query_body scope);
  }

  abbrev first_presentation : List String → Result String String
  first_presentation [] = err "presentation response had no presentation"
  first_presentation (vp ∷ vps) = ok vp

  -- `response.text().await.unwrap_or_default()`
  abbrev text_of : Response → String
  text_of response = elim response.text [ ok t ↦ t | err e ↦ "" ]

  -- `response.json::<PresentationResponseMessage>()`
  abbrev json_presentation : Result Value String → Result (List String) String
  json_presentation (ok v) = P.presentation_from_value v
  json_presentation (err e) = err e

  -- Steps 1 and 2: the holder's DID, its document and the payload of its token
  unfoldable pub verify_token :
      String → DcpConfig → Task World (String × DidDocument × Value) String
  verify_token token config = do
    (signing_input, header, payload) ← lift (decode_jws_unverified P token)
    holder_did ← lift (ok_or (get_str "iss" payload) "token has no iss")
    kid ← lift (ok_or (get_str "kid" header) "token has no kid")
    holder_doc ← resolve_did P holder_did config.insecure_http
    holder_key ← lift (find_verifying_key P holder_doc kid)
    lift (verify_jws_signature P token holder_key)
    let aud = unwrap_or (get_str "aud" payload) ""
    if not (aud == config.key_pair.own_did)
        then lift (
            err (
              "token audience '" +++ aud +++ "' does not match this connector's DID '"
              +++ config.key_pair.own_did +++ "'"))
        else do
          checked_at ← always now_secs
          if leb (unwrap_or (get_u64 "exp" payload) 0) checked_at
              then lift (err "token has expired")
              else pure (holder_did, holder_doc, payload)

  -- Steps 3 and 4: the first presentation that the holder's credential service returns
  unfoldable pub query_presentation :
      DcpConfig → String → DidDocument → Value → Task World String String
  query_presentation config holder_did holder_doc payload = do
    nested_token ←
        lift (ok_or (get_str "token" payload) "token has no nested presentation-access-token claim")
    now ← always now_secs
    jti ← always new_uuid
    let token =
        sign_jws P (t1_payload P config.key_pair.own_did holder_did nested_token now jti)
          (signing_key P config.key_pair) config.key_pair.own_key_id
    credential_service ← lift (service_endpoint_url holder_doc "CredentialService")
    let query_url = credential_service +++ "/presentations/query"
    response ←
        send_or P (λ e. "presentation query to " +++ query_url +++ " failed: " +++ e)
          (presentation_query query_url token config.required_scope)
    if not (is_success response.status)
        then lift (
            err (
              "presentation query returned HTTP "
              +++ status_to_string response.status
              +++ ": "
              +++ text_of response))
        else do
          presentations ← lift (
              map_err (λ e. "malformed presentation response: " +++ e)
                (json_presentation response.json))
          lift (first_presentation presentations)

  abbrev nonempty : List Value → Result (List Value) String
  nonempty [] = err "VerifiablePresentation contained no credentials"
  nonempty (vc ∷ vcs) = ok (vc ∷ vcs)

  -- Step 5: the credentials of a presentation that the holder signed
  unfoldable pub presented_credentials : DidDocument → String → Task World (List Value) String
  presented_credentials holder_doc vp_jws = do
    (signing_input, vp_header, vp_payload) ← lift (decode_jws_unverified P vp_jws)
    vp_kid ← lift (ok_or (get_str "kid" vp_header) "VP has no kid")
    vp_key ← lift (find_verifying_key P holder_doc vp_kid)
    lift (verify_jws_signature P vp_jws vp_key)
    lift (nonempty (items_of (and_then (get "vp" vp_payload) (get_array "verifiableCredential"))))

  unfoldable pub verify_dcp_bearer_token : String → DcpConfig → Task World VerifiedCaller String
  unfolding verify_token query_presentation presented_credentials check_credentials
  verify_dcp_bearer_token token config = do
    (holder_did, holder_doc, payload) ← verify_token token config
    vp_jws ← query_presentation config holder_did holder_doc payload
    vcs ← presented_credentials holder_doc vp_jws
    outcome ← check_credentials config.insecure_http vcs [] false
    lift (verified_caller holder_did outcome)
