-- ===== src/HttpApi/Federation/Gated.antt =====
-- A crawl of a participant that requires DCP, at that participant's own server: the header that
-- crates/crawler/src/lib.rs sends, and what crates/http-api/src/lib.rs makes of it.
pub mod World
mod Tests
use text.Mathlib.TextLemmas.{nil-append, cons-append}
use federated_catalog_rs.Prelude.{
  ℕ, ◌<◌, String, Bool, true, false, ◌≡◌, refl, ap, ◌∙◌, sym, ok-injective, Result, some, List, ok,
}
use federated_catalog_rs.Text.{◌+++◌, trim, is_empty}
use federated_catalog_rs.Json.{Value, get, unwrap_or, null}
use federated_catalog_rs.Platform.{Platform}
use federated_catalog_rs.Dcp.Jws.{jws_header, sign_jws}
use federated_catalog_rs.Dcp.Jws.Laws.{IsFaithful, ReadsBack}
use federated_catalog_rs.Dcp.Documents.Laws.{HasP256Keys}
use federated_catalog_rs.Dcp.Resolve.{resolve_did}
use federated_catalog_rs.Dcp.Holder.{
  HolderIdentity, minted_payload, expiry, vp_payload, mint_self_issued_token,
}
use federated_catalog_rs.Crawler.Config.{ParticipantEntry}
use federated_catalog_rs.Crawler.Crawl.{authorization}
use federated_catalog_rs.HttpApi.Verifier.{DcpConfig, verify_dcp_bearer_token}
use federated_catalog_rs.HttpApi.Verifier.Grants.{Grants}
use federated_catalog_rs.HttpApi.Verifier.Credentials.{IsSigned}
use federated_catalog_rs.HttpApi.Verifier.Presented.{Returned}
use federated_catalog_rs.HttpApi.Verifier.Admission.{
  holder, holder_doc, presentation_at, minted, verify_dcp_bearer_token-mint,
}
use federated_catalog_rs.HttpApi.Auth.{
  DspAuthConfig, dcp, is_disabled, authorize_token, dcp_access, authorize, authorize_bearer,
  verified_access,
}
use federated_catalog_rs.HttpApi.Router.Presentation.{bearer_token-bearer}

pub nonempty_append : (s t : String) → is_empty t ≡ false → is_empty (s +++ t) ≡ false
nonempty_append String.[] t e = rw (nil-append t) e
nonempty_append (String.◌∷◌ c s) t e = rw (cons-append c s t) refl

pub nonempty_dot : (t : String) → is_empty ("." +++ t) ≡ false
nonempty_dot t = rw (cons-append "." "" t) refl

module _ (P : Platform) (faithful : IsFaithful P) (keys : HasP256Keys P) (host : String)
    (insecure : Bool) (credential scope : String) (w0 : P.World) (services : List (String × String))
    (config : DcpConfig P) (w v v1 : P.World) where
  -- The crawler's holder, and the token that it mints for the participant
  abbrev pub crawler : HolderIdentity P
  crawler = holder P faithful keys host insecure credential scope w0 services

  abbrev pub token : String
  token = (mint_self_issued_token P crawler config.key_pair.own_did w).0

  authorization-gated :
      (p : ParticipantEntry)
      → p.requires_dcp ≡ true
      → p.provider_did ≡ some config.key_pair.own_did
      → authorization P p (some crawler) w
        ≡ (ok ("Bearer " +++ token), (mint_self_issued_token P crawler config.key_pair.own_did w).1)
  unfolding authorization
  authorization-gated p r d = rw (r, d) refl

  token-nonempty : is_empty token ≡ false
  unfolding mint_self_issued_token sign_jws
  token-nonempty = nonempty_append _ _ (nonempty_dot _)

  -- In DCP mode the access of a bearer is what the verifier makes of its token.
  authorize-dcp :
      (auth : DspAuthConfig P)
      → auth.mode ≡ dcp
      → auth.dcp ≡ some config
      → trim token ≡ token
      → authorize P auth (some ("Bearer " +++ token)) v
        ≡ verified_access P (verify_dcp_bearer_token P token config v)
  unfolding authorize
  authorize-dcp auth m c t = rw (m, bearer_token-bearer token t token-nonempty, c) refl

  -- The header with which a crawler asks a participant that requires DCP is accepted by the
  -- participant's server, and gives the crawler access to exactly the dataset ids that the credential
  -- of its holder grants: if the participant's `provider_did` is the server's own, the server is in
  -- DCP mode, the holder's DID resolves to its document, the token has not expired when it is checked,
  -- the network answers the server's query, sent to the holder's credential service, with a
  -- presentation that the holder has made, the credential is signed by a key of its issuer's document
  -- and unexpired, the JSON of the tokens reads back, the token has no white space at its ends, and
  -- base64url, ECDSA and P-256 keys behave as documented.
  pub authorize-authorization :
      (p : ParticipantEntry) (auth : DspAuthConfig P) (header : String) (w1 : P.World) (now : ℕ)
      (jti issuer : String) (claims : Value) (ids : List String) (w4 : P.World)
      → p.requires_dcp ≡ true
      → p.provider_did ≡ some config.key_pair.own_did
      → auth.mode ≡ dcp
      → auth.dcp ≡ some config
      → authorization P p (some crawler) w ≡ (ok header, w1)
      → ReadsBack P (jws_header crawler.key_pair.own_key_id)
      → ReadsBack P (minted_payload P crawler config.key_pair.own_did w).0
      → ReadsBack P (vp_payload P crawler.key_pair.own_did credential now jti)
      → trim token ≡ token
      → resolve_did P crawler.key_pair.own_did config.insecure_http v
        ≡ (ok (holder_doc P faithful keys host insecure credential scope w0 services), v1)
      → (P.now_secs v1).0 < expiry (P.now_secs w).0
      → Returned P config crawler.key_pair.own_did
          (holder_doc P faithful keys host insecure credential scope w0 services)
          (minted_payload P crawler config.key_pair.own_did w).0
          (P.now_secs v1).1
          (presentation_at P faithful keys host insecure credential scope w0 services now jti)
          w4
      → IsSigned P config.insecure_http credential issuer claims w4
      → Grants (unwrap_or (get "vc" claims) null) ids
      → (authorize P auth (some header) v).0 ≡ ok (some ids)
  authorize-authorization p auth header w1 now jti issuer claims ids w4 gated provider mode
        configured sent header_reads payload_reads vp_reads ends resolved unexpired returned signed
        grants =
      let same : header ≡ "Bearer " +++ token = ok-injective (
        ap (λ (r : Result String String × P.World). r.0)
          (sym sent ∙ authorization-gated p gated provider)) in
      rw (same, authorize-dcp auth mode configured ends)
        (ap (λ r. (verified_access P r).0)
          (verify_dcp_bearer_token-mint P faithful keys host insecure credential scope w0 services
            config w v v1 header_reads payload_reads resolved unexpired now jti issuer claims ids w4
            vp_reads returned signed grants))
