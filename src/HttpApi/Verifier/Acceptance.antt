-- ===== src/HttpApi/Verifier/Acceptance.antt =====
-- A caller with a valid token and presentation is given exactly what its unexpired credentials grant.
use federated_catalog_rs.HttpApi.Verifier.Credentials.{Audit, Audit-check_credentials}
use federated_catalog_rs.HttpApi.Verifier.Presented.{
  Returned, IsPresented, Returned-query_presentation, IsPresented-presented_credentials,
}
use federated_catalog_rs.HttpApi.Verifier.Laws.{IsCaller}
use federated_catalog_rs.Prelude.{
  String, ◌≡◌, ◌≢◌, refl, ap, ◌∙◌, Bool, true, false, List, [], ◌∷◌, ok, err, leb, arith, eq_refl,
}
use federated_catalog_rs.Json.{Value, get_u64, unwrap_or}
use federated_catalog_rs.Did.{DidDocument}
use federated_catalog_rs.Platform.{Platform}
use federated_catalog_rs.HttpApi.Verifier.{
  DcpConfig, verified_caller, verify_token, verify_dcp_bearer_token,
}

-- A caller is accepted unless it is granted nothing while a credential has expired.
verified_caller_kept :
    (P : Platform) (did : String) (ids : List String) (late : Bool)
    → (late ≡ true → ids ≢ [])
    → verified_caller P did (ids, late) ≡ ok (record { holder_did = did; catalog_access = ids })
verified_caller_kept P did [] true kept = absurd (kept refl refl)
verified_caller_kept P did [] false kept = refl
verified_caller_kept P did (id ∷ ids) late kept = refl

module _ (P : Platform) (token : String) (config : DcpConfig P) (w : P.World) (did : String)
    (doc : DidDocument) (caller : IsCaller P token config w did doc) where
  -- The world in which the token has been checked
  abbrev pub checked_at : P.World
  checked_at = (P.now_secs caller.signed.authentic.w1).1

  verify_token-IsCaller :
      verify_token P token config w ≡ (ok (did, doc, caller.payload), checked_at)
  unfolding verify_token
  verify_token-IsCaller =
      let a = caller.signed.authentic in
      let live : leb (unwrap_or (get_u64 "exp" caller.payload) 0) (P.now_secs a.w1).0 ≡ false =
        ground (arith, caller.signed.unexpired) in
      rw
        (
          a.decoded, a.has_iss, a.has_kid, a.resolved, a.listed, a.verified, caller.addressed,
          eq_refl, live,
        )
        (ap (λ d. (ok (did, d, caller.payload), checked_at)) caller.document)

  -- The run on such a caller, whose credentials have been checked
  verify_dcp_bearer_token-IsPresented :
      (vp : String) (vcs : List Value) (w4 w6 : P.World) (ids : List String) (late : Bool)
      → Returned P config did doc caller.payload checked_at vp w4
      → IsPresented P doc vp vcs
      → Audit P config.insecure_http vcs w4 ids late w6
      → verify_dcp_bearer_token P token config w ≡ (verified_caller P did (ids, late), w6)
  unfolding verify_dcp_bearer_token
  verify_dcp_bearer_token-IsPresented vp vcs w4 w6 ids late returned presented audit =
      rw
        (
          verify_token-IsCaller,
          Returned-query_presentation P config did doc caller.payload checked_at vp w4 returned,
          IsPresented-presented_credentials P doc vp vcs w4 presented,
          Audit-check_credentials P config.insecure_http vcs w4 w6 ids late [] false audit,
        )
        refl

  -- A caller that the token identifies is accepted with exactly the ids that the unexpired
  -- credentials of its presentation grant, in their order: if the network answers the query with that
  -- presentation, a key of the caller's document signs it, each of its credentials is signed by a key
  -- of its issuer's document, and, when one of them has expired, the others grant some id.
  pub verify_dcp_bearer_token-Audit :
      (vp : String) (vcs : List Value) (w4 w6 : P.World) (ids : List String) (late : Bool)
      → Returned P config did doc caller.payload checked_at vp w4
      → IsPresented P doc vp vcs
      → Audit P config.insecure_http vcs w4 ids late w6
      → (late ≡ true → ids ≢ [])
      → verify_dcp_bearer_token P token config w
        ≡ (ok (record { holder_did = did; catalog_access = ids }), w6)
  verify_dcp_bearer_token-Audit vp vcs w4 w6 ids late returned presented audit kept =
      verify_dcp_bearer_token-IsPresented vp vcs w4 w6 ids late returned presented audit
      ∙ ap (λ r. (r, w6)) (verified_caller_kept P did ids late kept)

  -- A caller that the token identifies is refused when the credentials of its presentation grant
  -- nothing and one of them has expired, also if others are valid: if the network answers the query
  -- with that presentation, a key of the caller's document signs it, and each of its credentials is
  -- signed by a key of its issuer's document, the error says that all credentials have expired.
  pub verify_dcp_bearer_token-expired :
      (vp : String) (vcs : List Value) (w4 w6 : P.World)
      → Returned P config did doc caller.payload checked_at vp w4
      → IsPresented P doc vp vcs
      → Audit P config.insecure_http vcs w4 [] true w6
      → verify_dcp_bearer_token P token config w ≡ (err "all presented credentials are expired", w6)
  verify_dcp_bearer_token-expired vp vcs w4 w6 returned presented audit =
      verify_dcp_bearer_token-IsPresented vp vcs w4 w6 [] true returned presented audit
