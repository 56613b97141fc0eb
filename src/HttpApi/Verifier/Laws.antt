-- ===== src/HttpApi/Verifier/Laws.antt =====
-- A verified caller holds a valid token, and what it may see was granted by valid credentials.
use federated_catalog_rs.HttpApi.Verifier.Credentials.{IsSigned, Audit, check_credentials-Audit}
use federated_catalog_rs.HttpApi.Verifier.Presented.{
  Returned, IsPresented, presented_credentials-IsPresented, query_presentation-Returned,
}
use federated_catalog_rs.Prelude.{
  String, ◌≡◌, ◌≢◌, ◌∙◌, true, ◌∷◌, refl, ap, sym, Bool, false, not, List, [], Result, ok, ok_or,
  ok_or-eq-ok, ok-injective, leb, ◌==◌, eq_iff, arith, subst,
}
use federated_catalog_rs.Json.{Value, get_str, get_u64, unwrap_or}
use federated_catalog_rs.Did.{DidDocument}
use federated_catalog_rs.Task.{lift_bind-eq-ok, >>=-eq-ok, guard-eq-ok}
use federated_catalog_rs.Platform.{Platform}
use federated_catalog_rs.Dcp.Jws.{decode_jws_unverified, verify_jws_signature}
use federated_catalog_rs.Dcp.Documents.{find_verifying_key}
use federated_catalog_rs.Dcp.Resolve.{resolve_did}
use federated_catalog_rs.HttpApi.Verifier.{
  DcpConfig, VerifiedCaller, check_credentials, verified_caller, verify_token, query_presentation,
  presented_credentials, verify_dcp_bearer_token,
}

module _ (P : Platform) (token : String) (config : DcpConfig P) (w : P.World) where
  -- The caller that the token identifies: the token is signed and unexpired, its issuer is the
  -- caller, and it is addressed to this connector.
  pub record IsCaller (did : String) (doc : DidDocument) : Type 0 where
    pub payload : Value
    pub signed : IsSigned P config.insecure_http token did payload w
    pub document : signed.authentic.doc ≡ doc
    pub addressed : unwrap_or (get_str "aud" payload) "" ≡ config.key_pair.own_did

  verify_token-IsCaller :
      (did : String) (doc : DidDocument) (payload : Value) (w1 : P.World)
      → verify_token P token config w ≡ (ok (did, doc, payload), w1)
      → (c : IsCaller did doc) × (c.payload ≡ payload) × ((P.now_secs c.signed.authentic.w1).1 ≡ w1)
  unfolding verify_token
  verify_token-IsCaller did doc payload w1 e =
      let ((si, header, payload'), decoded, e1) =
        lift_bind-eq-ok (decode_jws_unverified P token) _ w e in
      let (did', iss, e2) = lift_bind-eq-ok (ok_or (get_str "iss" payload') _) _ w e1 in
      let (kid, has_kid, e3) = lift_bind-eq-ok (ok_or (get_str "kid" header) _) _ w e2 in
      let (doc', w2, resolved, e4) = >>=-eq-ok (resolve_did P did' config.insecure_http) _ w e3 in
      let (key, listed, e5) = lift_bind-eq-ok (find_verifying_key P doc' kid) _ w2 e4 in
      let (u, verified, e6) = lift_bind-eq-ok (verify_jws_signature P token key) _ w2 e5 in
      let (same, e7) =
        guard-eq-ok (not (unwrap_or (get_str "aud" payload') "" == config.key_pair.own_did)) _ _ w2
          e6 in
      let (later, e8) =
        guard-eq-ok (leb (unwrap_or (get_u64 "exp" payload') 0) (P.now_secs w2).0) _ _
          (P.now_secs w2).1 e7 in
      let is_did =
        ok-injective
          (ap (λ (r : Result (String × DidDocument × Value) String × P.World). r.0) e8) in
      subst
        (λ (x : String × DidDocument × Value).
          (c : IsCaller x.0 x.1) × (c.payload ≡ x.2) × ((P.now_secs c.signed.authentic.w1).1 ≡ w1))
        is_did
        (
          record {
            payload = payload';
            signed = record {
              authentic = record {
                signing_input = si;
                header = header;
                kid = kid;
                doc = doc';
                key = key;
                w1 = w2;
                decoded = decoded;
                has_iss = ok_or-eq-ok _ _ iss;
                has_kid = ok_or-eq-ok _ _ has_kid;
                resolved = resolved;
                listed = listed;
                verified = verified;
              };
              unexpired = ground (arith, later);
            };
            document = refl;
            addressed = ground (
              arith,
              same,
              eq_iff (unwrap_or (get_str "aud" payload') "") config.key_pair.own_did,
            );
          },
          refl,
          ap (λ (r : Result (String × DidDocument × Value) String × P.World). r.1) e8,
        )

  -- The verified caller from the outcome of the loop
  caller_of :
      (did : String) (access : List String) (expired : Bool) (caller : VerifiedCaller P)
      → verified_caller P did (access, expired) ≡ ok caller
      → (caller.holder_did ≡ did)
        × (caller.catalog_access ≡ access)
        × (expired ≡ true → access ≢ [])
  caller_of did [] false caller e =
      let same = ok-injective e in
      (
        ap (λ (c : VerifiedCaller P). c.holder_did) (sym same),
        ap (λ (c : VerifiedCaller P). c.catalog_access) (sym same),
        (λ h. ground (arith, h)),
      )
  caller_of did [] true caller e = ground (arith, e)
  caller_of did (id ∷ ids) expired caller e =
      let same : ok (record { holder_did = did; catalog_access = id ∷ ids }) ≡ ok caller = e in
      (
        ap (λ (c : VerifiedCaller P). c.holder_did) (sym (ok-injective same)),
        ap (λ (c : VerifiedCaller P). c.catalog_access) (sym (ok-injective same)),
        (λ h k. ground (arith, k)),
      )

  -- What a run of the verifier that accepts `did` with `ids` has found, step after step, each in the
  -- world that the one before has left
  pub record Accepted (did : String) (ids : List String) (w' : P.World) : Type 0 where
    pub doc : DidDocument
    pub caller : IsCaller did doc
    pub presentation : String
    pub w4 : P.World
    pub returned :
        Returned P config did doc caller.payload
          (P.now_secs caller.signed.authentic.w1).1
          presentation
          w4
    pub credentials : List Value
    pub presented : IsPresented P doc presentation credentials
    pub late : Bool
    pub audit : Audit P config.insecure_http credentials w4 ids late w'
    pub granted_something : late ≡ true → ids ≢ []

  -- A verified caller holds a token for this connector that is signed by a key of its own DID
  -- document and unexpired; the network has answered the connector's query, sent to the credential
  -- service of that document, with a presentation signed by a key of that document; every credential
  -- in it is signed by a key of its issuer's document; and the dataset ids that the caller is given
  -- are, in order, exactly those that the credentials of the type
  -- `FederatedCatalogAccessCredential` list that have not expired by the clock when they are checked.
  -- If one of the credentials has expired, there is such an id.
  pub verify_dcp_bearer_token-IsCaller :
      (caller : VerifiedCaller P) (w2 : P.World)
      → verify_dcp_bearer_token P token config w ≡ (ok caller, w2)
      → Accepted caller.holder_did caller.catalog_access w2
  unfolding verify_dcp_bearer_token
  verify_dcp_bearer_token-IsCaller caller w2 e =
      let ((did, doc, payload), w3, e1, e2) = >>=-eq-ok (verify_token P token config) _ w e in
      let (vp, w4, e3, e4) = >>=-eq-ok (query_presentation P config did doc payload) _ w3 e2 in
      let (vcs, w5, e5, e6) = >>=-eq-ok (presented_credentials P doc vp) _ w4 e4 in
      let ((access, expired), w6, e7, e8) =
        >>=-eq-ok (check_credentials P config.insecure_http vcs [] false) _ w5 e6 in
      let (is_did, is_access, kept) =
        caller_of did access expired caller
          (ap (λ (r : Result (VerifiedCaller P) String × P.World). r.0) e8) in
      let (c, same, after) = verify_token-IsCaller did doc payload w3 e1 in
      let (presented, still) = presented_credentials-IsPresented P doc vp vcs w4 w5 e5 in
      let (ids, late, audit, all_ids, lates) =
        check_credentials-Audit P config.insecure_http vcs w5 w6 access expired [] false e7 in
      let returned = query_presentation-Returned P config did doc payload w3 vp w4 e3 in
      let accepted : Accepted did ids w6 = record {
        doc = doc;
        caller = c;
        presentation = vp;
        w4 = w4;
        returned =
            subst (λ u. Returned P config did doc c.payload u vp w4) (sym after)
              (subst (λ x. Returned P config did doc x w3 vp w4) (sym same) returned);
        credentials = vcs;
        presented = presented;
        late = late;
        audit = subst (λ u. Audit P config.insecure_http vcs u ids late w6) (sym still) audit;
        granted_something = λ h k. kept (sym lates ∙ h) (sym all_ids ∙ k);
      } in
      subst (λ x. Accepted x caller.catalog_access w2) (sym is_did)
        (subst (λ xs. Accepted did xs w2) (all_ids ∙ sym is_access)
          (subst (Accepted did ids)
            (ap (λ (r : Result (VerifiedCaller P) String × P.World). r.1) e8) accepted))
