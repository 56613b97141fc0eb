-- ===== src/Dcp/Holder.antt =====
-- The holder: its identity, the token that it mints, and its answer to a presentation query.
pub mod Laws
use federated_catalog_rs.Prelude.{
  ℕ, ◌+◌, ◌%◌, ◌^◌, String, Bool, Option, some, List, [], ◌∷◌, ok, err, ok_or, leb, not, ◌==◌,
  if◌then◌else◌,
}
use federated_catalog_rs.Text.{replace_char, ◌+++◌}
use federated_catalog_rs.Json.{Value, get_str, get_u64, obj, arr, nat, string, unwrap_or}
use federated_catalog_rs.Task.{Task, ◌>>=◌, ◌>>◌, lift, always}
use federated_catalog_rs.Platform.{Platform}
use federated_catalog_rs.Dcp.Jws.{decode_jws_unverified, verify_jws_signature, sign_jws}
use federated_catalog_rs.Dcp.DidWeb.{scheme}
use federated_catalog_rs.Dcp.Documents.{
  DcpKeyPair, generate, did_document, find_verifying_key, signing_key,
}
use federated_catalog_rs.Dcp.Resolve.{resolve_did}

-- `now + 300` on a `u64`, as a release build computes it; a debug build panics where it overflows
abbrev pub expiry : ℕ → ℕ
expiry now = (now + 300) % 2 ^ 64

module _ (P : Platform) where
  open P use {World, now_secs, new_uuid}

  pub record HolderIdentity : Type 0 where
    pub key_pair : DcpKeyPair P
    pub own_did_host : String
    pub insecure_http : Bool
    pub credential_jws : String
    pub required_scope : String

  unfoldable pub new : String → Bool → String → String → World → HolderIdentity × World
  new own_did_host insecure_http credential_jws required_scope world =
      let own_did = "did:web:" +++ replace_char b':' "%3A" own_did_host +++ ":dsp:holder" in
      let (key_pair, world') = generate P own_did world in
      (
        record {
          key_pair = key_pair;
          own_did_host = own_did_host;
          insecure_http = insecure_http;
          credential_jws = credential_jws;
          required_scope = required_scope;
        },
        world',
      )

  unfoldable pub own_did_document : HolderIdentity → Value
  own_did_document holder =
      let endpoint =
        scheme holder.insecure_http +++ "://" +++ holder.own_did_host +++ "/dsp/holder" in
      did_document P holder.key_pair (("CredentialService", endpoint) ∷ [])

  abbrev pub access_token_payload : String → ℕ → String → Value
  access_token_payload own_did now jti = obj (
      ("aud", string own_did)
      ∷ ("exp", nat (expiry now))
      ∷ ("iat", nat now)
      ∷ ("iss", string own_did)
      ∷ ("jti", string jti)
      ∷ ("nbf", nat now)
      ∷ ("sub", string own_did)
      ∷ [])

  abbrev pub t1_payload : String → String → String → ℕ → String → Value
  t1_payload own_did target_provider_did access_token now jti = obj (
      ("aud", string target_provider_did)
      ∷ ("exp", nat (expiry now))
      ∷ ("iat", nat now)
      ∷ ("iss", string own_did)
      ∷ ("jti", string jti)
      ∷ ("nbf", nat now)
      ∷ ("sub", string own_did)
      ∷ ("token", string access_token)
      ∷ [])

  -- The claims of the token, and the world once they are made
  abbrev pub minted_payload : HolderIdentity → String → World → Value × World
  minted_payload holder target_provider_did world =
      let own_did = holder.key_pair.own_did in
      let (now, world1) = now_secs world in
      let (jti, world2) = new_uuid world1 in
      let access_token =
        sign_jws P (access_token_payload own_did now jti) (signing_key P holder.key_pair)
          holder.key_pair.own_key_id in
      let (jti', world3) = new_uuid world2 in
      (t1_payload own_did target_provider_did access_token now jti', world3)

  unfoldable pub mint_self_issued_token : HolderIdentity → String → World → String × World
  mint_self_issued_token holder target_provider_did world =
      let (payload, world') = minted_payload holder target_provider_did world in
      (sign_jws P payload (signing_key P holder.key_pair) holder.key_pair.own_key_id, world')

  abbrev pub vp_payload : String → String → ℕ → String → Value
  vp_payload own_did credential_jws now jti = obj (
      ("exp", nat (expiry now))
      ∷ ("iat", nat now)
      ∷ ("iss", string own_did)
      ∷ ("jti", string jti)
      ∷ ("sub", string own_did)
      ∷ (
        "vp",
        obj (
            ("@context", arr (string "https://www.w3.org/2018/credentials/v1" ∷ []))
            ∷ ("type", arr (string "VerifiablePresentation" ∷ []))
            ∷ ("verifiableCredential", arr (string credential_jws ∷ []))
            ∷ []),
      )
      ∷ [])

  -- The `presentation` of the response message
  unfoldable pub answer_presentation_query :
      HolderIdentity → String → Task World (List String) String
  answer_presentation_query holder token = do
    (signing_input, header, payload) ← lift (decode_jws_unverified P token)
    caller_did ← lift (ok_or (get_str "iss" payload) "token has no iss")
    kid ← lift (ok_or (get_str "kid" header) "token has no kid")
    caller_doc ← resolve_did P caller_did holder.insecure_http
    caller_key ← lift (find_verifying_key P caller_doc kid)
    lift (verify_jws_signature P token caller_key)
    let aud = unwrap_or (get_str "aud" payload) ""
    if not (aud == holder.key_pair.own_did)
        then lift (
            err (
              "token audience '" +++ aud +++ "' does not match this holder's DID '"
              +++ holder.key_pair.own_did +++ "'"))
        else do
          checked_at ← always now_secs
          if leb (unwrap_or (get_u64 "exp" payload) 0) checked_at
              then lift (err "token has expired")
              else do
                now ← always now_secs
                jti ← always new_uuid
                lift (
                    ok (
                      sign_jws P (vp_payload holder.key_pair.own_did holder.credential_jws now jti)
                        (signing_key P holder.key_pair) holder.key_pair.own_key_id
                      ∷ []))
