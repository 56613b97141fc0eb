-- ===== src/Dcp/Holder/Laws.antt =====
-- The holder's identity resolves, its tokens verify, and it answers exactly the queries that it may.
use federated_catalog_rs.Prelude.{
  ℕ, ◌+◌, ◌^◌, String, Bool, ◌≡◌, refl, ap, some, List, [], ◌∷◌, ok, ok_or-eq-ok, ok_or, leb, not,
  ◌<◌, eq_iff, eq_refl, ◌==◌, arith,
}
use federated_catalog_rs.Text.{replace_char, join, ◌+++◌}
use federated_catalog_rs.Text.Splitting.{Lacks, lacks-Lacks}
use federated_catalog_rs.Json.{Value, get_str, get_u64, get, lookup, unwrap_or}
use federated_catalog_rs.Did.{DidDocument}
use federated_catalog_rs.Task.{lift_bind-eq-ok, >>=-eq-ok, guard-eq-ok}
use federated_catalog_rs.Platform.{Platform}
use federated_catalog_rs.Dcp.Jws.{decode_jws_unverified, verify_jws_signature, jws_header, sign_jws}
use federated_catalog_rs.Dcp.Jws.Laws.{IsFaithful, ReadsBack, decode-sign_jws, verify-sign_jws}
use federated_catalog_rs.Dcp.DidWeb.{did_web_to_url, scheme}
use federated_catalog_rs.Dcp.DidWeb.Laws.{did_web_to_url-did_web}
use federated_catalog_rs.Dcp.Documents.{
  generate, signing_key, find_verifying_key, service_endpoint_url,
}
use federated_catalog_rs.Dcp.Documents.Laws.{
  HasP256Keys, ReadsDocuments, published, find_verifying_key-generate,
}
use federated_catalog_rs.Dcp.Resolve.{resolve_did}
use federated_catalog_rs.Dcp.Holder.{
  HolderIdentity, new, own_did_document, vp_payload, expiry, minted_payload, mint_self_issued_token,
  answer_presentation_query,
}

-- The DID of a new holder on a host without `%` resolves to the route that serves its document.
pub did_web_to_url-new :
    (P : Platform) (host : String) (insecure : Bool) (credential scope : String) (w : P.World)
    → Lacks b'%' host
    → did_web_to_url (new P host insecure credential scope w).0.key_pair.own_did insecure
      ≡ ok (scheme insecure +++ "://" +++ host +++ "/dsp/holder/did.json")
unfolding new generate join replace_char
did_web_to_url-new P host insecure credential scope w h =
    did_web_to_url-did_web host ("dsp" ∷ "holder" ∷ []) insecure h
      (lacks-Lacks b'%' "dsp" refl, (lacks-Lacks b'%' "holder" refl, tt))

module _ (P : Platform) (faithful : IsFaithful P) (keys : HasP256Keys P)
    (reads : ReadsDocuments P) where
  -- A reader of a new holder's document finds under the holder's key id the public key of its
  -- signing key, and as the credential service the holder's base URL, if base64url, P-256 keys and
  -- the reading of the document behave as documented.
  pub own_did_document-new :
      (host : String) (insecure : Bool) (credential scope : String) (w : P.World)
      → let holder = (new P host insecure credential scope w).0 in
        (doc : DidDocument) × (P.did_document_from_value (own_did_document P holder) ≡ ok doc)
        × (find_verifying_key P doc holder.key_pair.own_key_id
            ≡ ok (P.verifying_key_of (signing_key P holder.key_pair)))
        × (service_endpoint_url doc "CredentialService"
            ≡ ok (scheme insecure +++ "://" +++ host +++ "/dsp/holder"))
  unfolding new own_did_document service_endpoint_url
  own_did_document-new host insecure credential scope w =
      let holder = (new P host insecure credential scope w).0 in
      let services =
        ("CredentialService", scheme insecure +++ "://" +++ host +++ "/dsp/holder") ∷ [] in
      (
        published P holder.key_pair services,
        reads holder.key_pair services,
        find_verifying_key-generate P faithful keys _ w services,
        refl,
      )

module _ (P : Platform) (faithful : IsFaithful P) (holder : HolderIdentity P) (target : String)
    (w : P.World) where
  -- The minted token decodes to the holder's key id and to a payload that is issued by the holder
  -- for the target and expires exactly 300 seconds after the clock, if that time fits a `u64`; and its
  -- signature verifies under the holder's public key; if base64url and ECDSA behave as documented and
  -- the JSON of the header and the payload reads back.
  pub mint_self_issued_token_lem :
      ReadsBack P (jws_header holder.key_pair.own_key_id)
      → ReadsBack P (minted_payload P holder target w).0
      → (P.now_secs w).0 + 300 < 2 ^ 64
      → let token = (mint_self_issued_token P holder target w).0 in
        (signing_input : String) × (payload : Value) × (decode_jws_unverified P token
          ≡ ok (signing_input, jws_header holder.key_pair.own_key_id, payload))
        × (get_str "iss" payload ≡ some holder.key_pair.own_did)
        × (get_str "aud" payload ≡ some target)
        × (get_u64 "exp" payload ≡ some ((P.now_secs w).0 + 300))
        × (verify_jws_signature P token (P.verifying_key_of (signing_key P holder.key_pair))
            ≡ ok tt)
  unfolding mint_self_issued_token get_str get_u64 get lookup
  mint_self_issued_token_lem h p fits =
      let payload = (minted_payload P holder target w).0 in
      let key = signing_key P holder.key_pair in
      let exact : expiry (P.now_secs w).0 ≡ (P.now_secs w).0 + 300 = omega (arith, fits) in
      (
        _,
        payload,
        decode-sign_jws P faithful payload key holder.key_pair.own_key_id h p,
        refl,
        refl,
        ap some exact,
        verify-sign_jws P faithful payload key holder.key_pair.own_key_id,
      )

module _ (P : Platform) (holder : HolderIdentity P) (token : String) (w : P.World) where
  -- What entitles a query to an answer: its token is signed by a key that the issuer's DID document
  -- lists under the token's key id, is addressed to the holder, and has not expired.
  pub record IsEntitled : Type 0 where
    pub signing_input : String
    pub header : Value
    pub payload : Value
    pub caller_did : String
    pub kid : String
    pub caller_doc : DidDocument
    pub caller_key : P.VerifyingKey
    pub w1 : P.World
    pub decoded : decode_jws_unverified P token ≡ ok (signing_input, header, payload)
    pub has_iss : get_str "iss" payload ≡ some caller_did
    pub has_kid : get_str "kid" header ≡ some kid
    pub resolved : resolve_did P caller_did holder.insecure_http w ≡ (ok caller_doc, w1)
    pub listed : find_verifying_key P caller_doc kid ≡ ok caller_key
    pub verified : verify_jws_signature P token caller_key ≡ ok tt
    pub addressed : unwrap_or (get_str "aud" payload) "" ≡ holder.key_pair.own_did
    pub unexpired : (P.now_secs w1).0 < unwrap_or (get_u64 "exp" payload) 0

  -- The presentation that the holder signs, given the clock and the random id
  abbrev pub presentation : ℕ → String → String
  presentation now jti =
      sign_jws P (vp_payload P holder.key_pair.own_did holder.credential_jws now jti)
        (signing_key P holder.key_pair) holder.key_pair.own_key_id

  -- An entitled query is answered with this presentation.
  pub answer_presentation_query-IsEntitled :
      (h : IsEntitled)
      → let (now, w3) = P.now_secs (P.now_secs h.w1).1 in
        let (jti, w4) = P.new_uuid w3 in
        answer_presentation_query P holder token w ≡ (ok (presentation now jti ∷ []), w4)
  unfolding answer_presentation_query
  answer_presentation_query-IsEntitled h =
      rw (h.decoded, h.has_iss, h.has_kid, h.resolved, h.listed, h.verified, h.addressed, eq_refl)
        (ground arith)

  -- The holder answers a query only if its token is signed by a key that its issuer's DID document
  -- lists under the token's key id, is addressed to the holder, and has not expired.
  pub IsEntitled-answer_presentation_query :
      (vps : List String) (w' : P.World)
      → answer_presentation_query P holder token w ≡ (ok vps, w')
      → IsEntitled
  unfolding answer_presentation_query
  IsEntitled-answer_presentation_query vps w' e =
      let ((si, header, payload), decoded, e1) =
        lift_bind-eq-ok (decode_jws_unverified P token) _ w e in
      let (did, iss, e2) = lift_bind-eq-ok (ok_or (get_str "iss" payload) _) _ w e1 in
      let (kid, has_kid, e3) = lift_bind-eq-ok (ok_or (get_str "kid" header) _) _ w e2 in
      let (doc, w1, resolved, e4) = >>=-eq-ok (resolve_did P did holder.insecure_http) _ w e3 in
      let (key, listed, e5) = lift_bind-eq-ok (find_verifying_key P doc kid) _ w1 e4 in
      let (u, verified, e6) = lift_bind-eq-ok (verify_jws_signature P token key) _ w1 e5 in
      let (same, e7) =
        guard-eq-ok (not (unwrap_or (get_str "aud" payload) "" == holder.key_pair.own_did)) _ _ w1
          e6 in
      let (later, e8) =
        guard-eq-ok (leb (unwrap_or (get_u64 "exp" payload) 0) (P.now_secs w1).0) _ _
          (P.now_secs w1).1 e7 in
      record {
        signing_input = si;
        header = header;
        payload = payload;
        caller_did = did;
        kid = kid;
        caller_doc = doc;
        caller_key = key;
        w1 = w1;
        decoded = decoded;
        has_iss = ok_or-eq-ok _ _ iss;
        has_kid = ok_or-eq-ok _ _ has_kid;
        resolved = resolved;
        listed = listed;
        verified = verified;
        addressed =
            ground
              (arith, same, eq_iff (unwrap_or (get_str "aud" payload) "") holder.key_pair.own_did);
        unexpired = ground (arith, later);
      }
