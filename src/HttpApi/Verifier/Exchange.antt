-- ===== src/HttpApi/Verifier/Exchange.antt =====
-- The two sides of the presentation query together: the verifier's query, and the holder's answer.
use federated_catalog_rs.Prelude.{ℕ, ◌<◌, String, ◌≡◌, refl, List, [], ◌∷◌, ok}
use federated_catalog_rs.Json.{get_str, get_u64, get, lookup}
use federated_catalog_rs.Platform.{Platform}
use federated_catalog_rs.Dcp.Jws.{jws_header, sign_jws, verify_jws_signature}
use federated_catalog_rs.Dcp.Jws.Laws.{IsFaithful, ReadsBack, decode-sign_jws, verify-sign_jws}
use federated_catalog_rs.Dcp.Documents.{DcpKeyPair, generate, signing_key}
use federated_catalog_rs.Dcp.Documents.Laws.{HasP256Keys, published, find_verifying_key-generate}
use federated_catalog_rs.Dcp.Resolve.{resolve_did}
use federated_catalog_rs.Dcp.Holder.{
  HolderIdentity, t1_payload, vp_payload, expiry, answer_presentation_query,
}
use federated_catalog_rs.Dcp.Holder.Laws.{
  IsEntitled, presentation, answer_presentation_query-IsEntitled,
}

-- A key pair, as it was generated
abbrev pub pair_of : (P : Platform) → String → P.World → DcpKeyPair P
pair_of P did w = (generate P did w).0

module _ (P : Platform) (faithful : IsFaithful P) (keys : HasP256Keys P)
    (holder : HolderIdentity P) where
  -- The token that the verifier sends with its query
  abbrev pub query_token : String → P.World → String → ℕ → String → String
  query_token did w0 nested now jti =
      sign_jws P (t1_payload P (pair_of P did w0).own_did holder.key_pair.own_did nested now jti)
        (signing_key P (pair_of P did w0)) (pair_of P did w0).own_key_id

  unfoldable pub query-IsEntitled :
      (did nested jti : String) (services : List (String × String)) (now : ℕ) (w0 w w1 : P.World)
      → ReadsBack P (jws_header (pair_of P did w0).own_key_id)
      → ReadsBack P (t1_payload P (pair_of P did w0).own_did holder.key_pair.own_did nested now jti)
      → resolve_did P (pair_of P did w0).own_did holder.insecure_http w
        ≡ (ok (published P (pair_of P did w0) services), w1)
      → (P.now_secs w1).0 < expiry now
      → IsEntitled P holder (query_token did w0 nested now jti) w
  unfolding get_str get_u64 get lookup
  query-IsEntitled did nested jti services now w0 w w1 h p r e =
      let pair = pair_of P did w0 in
      let payload = t1_payload P pair.own_did holder.key_pair.own_did nested now jti in
      record {
        signing_input = _;
        header = jws_header pair.own_key_id;
        payload = payload;
        caller_did = pair.own_did;
        kid = pair.own_key_id;
        caller_doc = published P pair services;
        caller_key = P.verifying_key_of (signing_key P pair);
        w1 = w1;
        decoded = decode-sign_jws P faithful payload (signing_key P pair) pair.own_key_id h p;
        has_iss = refl;
        has_kid = refl;
        resolved = r;
        listed = find_verifying_key-generate P faithful keys did w0 services;
        verified = verify-sign_jws P faithful payload (signing_key P pair) pair.own_key_id;
        addressed = refl;
        unexpired = e;
      }

  -- A holder answers the query of a verifier: if the verifier's DID resolves to the document of its
  -- key pair, the query's token has not expired when the holder checks it, its JSON reads back, and
  -- base64url, ECDSA and P-256 keys behave as documented, then the answer is one presentation, whose
  -- signature verifies under the holder's public key.
  pub answer_presentation_query-query :
      (did nested jti : String) (services : List (String × String)) (now : ℕ) (w0 w w1 : P.World)
      → ReadsBack P (jws_header (pair_of P did w0).own_key_id)
      → ReadsBack P (t1_payload P (pair_of P did w0).own_did holder.key_pair.own_did nested now jti)
      → resolve_did P (pair_of P did w0).own_did holder.insecure_http w
        ≡ (ok (published P (pair_of P did w0) services), w1)
      → (P.now_secs w1).0 < expiry now
      → (vp : String) × (w2 : P.World) × (answer_presentation_query P holder
            (query_token did w0 nested now jti)
            w
          ≡ (ok (vp ∷ []), w2))
        × (verify_jws_signature P vp (P.verifying_key_of (signing_key P holder.key_pair)) ≡ ok tt)
  answer_presentation_query-query did nested jti services now w0 w w1 h p r e =
      let entitled = query-IsEntitled did nested jti services now w0 w w1 h p r e in
      let (now', w2) = P.now_secs (P.now_secs entitled.w1).1 in
      let (jti', w3) = P.new_uuid w2 in
      (
        presentation P holder (query_token did w0 nested now jti) w now' jti',
        w3,
        answer_presentation_query-IsEntitled P holder (query_token did w0 nested now jti) w
            entitled,
        verify-sign_jws P faithful
            (vp_payload P holder.key_pair.own_did holder.credential_jws now' jti')
            (signing_key P holder.key_pair) holder.key_pair.own_key_id,
      )
