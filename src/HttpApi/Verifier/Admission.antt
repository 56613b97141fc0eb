-- ===== src/HttpApi/Verifier/Admission.antt =====
-- The crawler's token at the verifier of a participant: crates/dcp-core/src/lib.rs (HolderIdentity) and
-- crates/http-api/src/dcp.rs together.
use mathlib.Core.List.{append-nil}
use federated_catalog_rs.Prelude.{
  ℕ, ◌<◌, String, Bool, ◌≡◌, refl, subst, arith, false, List, [], ◌∷◌, ok,
}
use federated_catalog_rs.Json.{
  Value, get, get_str, get_u64, get_array, lookup, string, unwrap_or, null,
}
use federated_catalog_rs.Did.{DidDocument}
use federated_catalog_rs.Platform.{Platform}
use federated_catalog_rs.Dcp.Jws.{jws_header, sign_jws}
use federated_catalog_rs.Dcp.Jws.Laws.{IsFaithful, ReadsBack, decode-sign_jws, verify-sign_jws}
use federated_catalog_rs.Dcp.Documents.{find_verifying_key, signing_key}
use federated_catalog_rs.Dcp.Documents.Laws.{HasP256Keys, published, find_verifying_key-generate}
use federated_catalog_rs.Dcp.Resolve.{resolve_did}
use federated_catalog_rs.Dcp.Holder.{
  HolderIdentity, new, answer_presentation_query, mint_self_issued_token, minted_payload, expiry,
  vp_payload,
}
use federated_catalog_rs.Dcp.Holder.Laws.{IsEntitled, answer_presentation_query-IsEntitled}
use federated_catalog_rs.HttpApi.Verifier.{
  DcpConfig, presented_credentials, verify_dcp_bearer_token,
}
use federated_catalog_rs.HttpApi.Verifier.Grants.{Grants}
use federated_catalog_rs.HttpApi.Verifier.Credentials.{IsSigned, Audit, finished, checked, fresh}
use federated_catalog_rs.HttpApi.Verifier.Presented.{
  Returned, IsPresented, IsPresented-presented_credentials,
}
use federated_catalog_rs.HttpApi.Verifier.Laws.{IsCaller}
use federated_catalog_rs.HttpApi.Verifier.Acceptance.{verify_dcp_bearer_token-Audit}

module _ (P : Platform) (faithful : IsFaithful P) (keys : HasP256Keys P) (host : String)
    (insecure : Bool) (credential scope : String) (w0 : P.World)
    (services : List (String × String)) where
  -- A holder as it starts, and the document that it publishes
  abbrev pub holder : HolderIdentity P
  holder = (new P host insecure credential scope w0).0

  abbrev pub holder_doc : DidDocument
  holder_doc = published P holder.key_pair services

  holder_key :
      find_verifying_key P holder_doc holder.key_pair.own_key_id
      ≡ ok (P.verifying_key_of (signing_key P holder.key_pair))
  unfolding new
  holder_key = find_verifying_key-generate P faithful keys _ w0 services

  -- A presentation that the holder makes of its credential
  abbrev pub presentation_at : ℕ → String → String
  presentation_at now jti =
      sign_jws P (vp_payload P holder.key_pair.own_did credential now jti)
        (signing_key P holder.key_pair) holder.key_pair.own_key_id

  presentation_at-IsPresented :
      (now : ℕ) (jti : String)
      → ReadsBack P (jws_header holder.key_pair.own_key_id)
      → ReadsBack P (vp_payload P holder.key_pair.own_did credential now jti)
      → IsPresented P holder_doc (presentation_at now jti) (string credential ∷ [])
  unfolding get_str get_array get lookup
  presentation_at-IsPresented now jti h p =
      let payload = vp_payload P holder.key_pair.own_did credential now jti in
      let key = signing_key P holder.key_pair in
      record {
        signing_input = _;
        header = jws_header holder.key_pair.own_key_id;
        payload = payload;
        kid = holder.key_pair.own_key_id;
        key = P.verifying_key_of key;
        first = string credential;
        others = [];
        decoded = decode-sign_jws P faithful payload key holder.key_pair.own_key_id h p;
        has_kid = refl;
        listed = holder_key;
        verified = verify-sign_jws P faithful payload key holder.key_pair.own_key_id;
        contents = refl;
        some_credential = refl;
      }

  -- The holder answers a query that is entitled to it (its token is signed by a key of its issuer's
  -- document, is addressed to the holder and has not expired) with exactly one presentation, and
  -- whoever checks it against the document that the holder publishes reads in it exactly the holder's
  -- credential; if the JSON of the presentation reads back, and base64url, ECDSA and P-256 keys behave
  -- as documented.
  pub presented_credentials-answer_presentation_query :
      (token : String) (w : P.World) (entitled : IsEntitled P holder token w)
      → ReadsBack P (jws_header holder.key_pair.own_key_id)
      → let (now, w3) = P.now_secs (P.now_secs entitled.w1).1 in
        ReadsBack P (vp_payload P holder.key_pair.own_did credential now (P.new_uuid w3).0)
        → (vp : String) × (w4 : P.World) × (answer_presentation_query P holder token w
            ≡ (ok (vp ∷ []), w4))
          × ((v : P.World)
              → presented_credentials P holder_doc vp v ≡ (ok (string credential ∷ []), v))
  unfolding new
  presented_credentials-answer_presentation_query token w entitled h p =
      let (now, w3) = P.now_secs (P.now_secs entitled.w1).1 in
      let (jti, w4) = P.new_uuid w3 in
      (
        presentation_at now jti,
        w4,
        answer_presentation_query-IsEntitled P holder token w entitled,
        λ v.
            IsPresented-presented_credentials P holder_doc (presentation_at now jti)
              (string credential ∷ []) v (presentation_at-IsPresented now jti h p),
      )

  module _ (config : DcpConfig P) (w v v1 : P.World)
      (header_reads : ReadsBack P (jws_header holder.key_pair.own_key_id))
      (payload_reads : ReadsBack P (minted_payload P holder config.key_pair.own_did w).0)
      (resolved : resolve_did P holder.key_pair.own_did config.insecure_http v
        ≡ (ok holder_doc, v1))
      (unexpired : (P.now_secs v1).0 < expiry (P.now_secs w).0) where
    -- The token that the holder mints for the connector
    abbrev pub minted : String
    minted = (mint_self_issued_token P holder config.key_pair.own_did w).0

    unfoldable minted-IsCaller : IsCaller P minted config v holder.key_pair.own_did holder_doc
    unfolding mint_self_issued_token get_str get_u64 get lookup
    minted-IsCaller =
        let payload = (minted_payload P holder config.key_pair.own_did w).0 in
        let key = signing_key P holder.key_pair in
        record {
          payload = payload;
          signed = record {
            authentic = record {
              signing_input = _;
              header = jws_header holder.key_pair.own_key_id;
              kid = holder.key_pair.own_key_id;
              doc = holder_doc;
              key = P.verifying_key_of key;
              w1 = v1;
              decoded =
                  decode-sign_jws P faithful payload key holder.key_pair.own_key_id header_reads
                    payload_reads;
              has_iss = refl;
              has_kid = refl;
              resolved = resolved;
              listed = holder_key;
              verified = verify-sign_jws P faithful payload key holder.key_pair.own_key_id;
            };
            unexpired = unexpired;
          };
          document = refl;
          addressed = refl;
        }

    -- The verifier of the participant that the token was minted for takes it for the crawler's holder,
    -- and gives it the dataset ids that the holder's credential grants.
    pub verify_dcp_bearer_token-mint :
        (now : ℕ) (jti issuer : String) (claims : Value) (ids : List String) (w4 : P.World)
        → ReadsBack P (vp_payload P holder.key_pair.own_did credential now jti)
        → Returned P config holder.key_pair.own_did holder_doc
            (minted_payload P holder config.key_pair.own_did w).0
            (P.now_secs v1).1
            (presentation_at now jti)
            w4
        → (signed : IsSigned P config.insecure_http credential issuer claims w4)
        → Grants (unwrap_or (get "vc" claims) null) ids
        → verify_dcp_bearer_token P minted config v ≡ (
          ok (record { holder_did = holder.key_pair.own_did; catalog_access = ids }),
          (P.now_secs signed.authentic.w1).1,
        )
    unfolding minted-IsCaller
    verify_dcp_bearer_token-mint now jti issuer claims ids w4 vp_reads returned signed grants =
        let audit =
          subst
            (λ xs.
              Audit P config.insecure_http (string credential ∷ []) w4 xs false
                (P.now_secs signed.authentic.w1).1)
            (append-nil ids)
            (checked (fresh credential issuer claims refl signed grants) finished) in
        verify_dcp_bearer_token-Audit P minted config v holder.key_pair.own_did holder_doc
          minted-IsCaller (presentation_at now jti) (string credential ∷ []) w4 _ ids false returned
          (presentation_at-IsPresented now jti header_reads vp_reads) audit (λ h. ground (arith, h))
