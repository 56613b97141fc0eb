-- ===== src/HttpApi/Router/Presentation.antt =====
-- A verifier's presentation query that reaches the router of a holder's server.
use mathlib.Core.List.{Memᴰ}
use federated_catalog_rs.Prelude.{String, false, ◌≡◌, refl, ap, ◌∙◌, none, some, List, ok}
use federated_catalog_rs.Text.{◌+++◌, trim, is_empty}
use federated_catalog_rs.Text.Splitting.{lacks-Lacks, strip_prefix-append}
use federated_catalog_rs.Json.{Value}
use federated_catalog_rs.Did.{DidDocument}
use federated_catalog_rs.Platform.{Platform, http_post}
use federated_catalog_rs.Dcp.Jws.{sign_jws}
use federated_catalog_rs.Dcp.Documents.{signing_key}
use federated_catalog_rs.Dcp.Holder.{HolderIdentity, t1_payload, answer_presentation_query}
use federated_catalog_rs.HttpApi.Verifier.{DcpConfig}
use federated_catalog_rs.HttpApi.Auth.{
  reply, presentation_body, bearer_token, trimmed, nonempty_text,
}
use federated_catalog_rs.HttpApi.Handlers.{holder_presentation_query_route}
use federated_catalog_rs.HttpApi.Router.{
  AppState, Dispatcher, IsRouting, HttpRequest, serve, post_route,
  holder_presentation_query_endpoint,
}

-- The token of a header is read back, if it is not empty and has no white space at its ends.
pub bearer_token-bearer :
    (token : String)
    → trim token ≡ token
    → is_empty token ≡ false
    → bearer_token (some ("Bearer " +++ token)) ≡ some token
unfolding bearer_token
bearer_token-bearer token t e =
    ap trimmed (strip_prefix-append "Bearer " token) ∙ ap nonempty_text t ∙ rw e refl

-- A POST with a bearer token
abbrev pub post_path : String → String → HttpRequest
post_path path token = record {
  method = http_post;
  path = path;
  node_id = none;
  authorization = some ("Bearer " +++ token);
}

module _ (P : Platform) (dispatch : Dispatcher) (routing : IsRouting dispatch) (app : AppState P)
    (holder : HolderIdentity P) where
  pub serve-presentation_query :
      (token : String) (vps : List String) (state : app.cache.State) (w w' : P.World)
      → app.holder ≡ some holder
      → trim token ≡ token
      → is_empty token ≡ false
      → answer_presentation_query P holder token w ≡ (ok vps, w')
      → (serve P dispatch app (post_path "/dsp/holder/presentations/query" token) state w).0
        ≡ reply 200 (presentation_body vps)
  unfolding serve holder_presentation_query_route
  serve-presentation_query token vps state w w' h t e a =
      let dispatched =
        routing.literal
          (post_route "/dsp/holder/presentations/query" holder_presentation_query_endpoint)
          (Memᴰ.tail (
            Memᴰ.tail (Memᴰ.tail (Memᴰ.tail (Memᴰ.tail (Memᴰ.tail (Memᴰ.tail (Memᴰ.head refl))))))))
          (lacks-Lacks b'{' "/dsp/holder/presentations/query" refl) in
      rw (dispatched, h, bearer_token-bearer token t e, a) refl

  module _ (config : DcpConfig P) (holder_did : String) (doc : DidDocument) (payload : Value)
      (nested base vp : String) (w : P.World) where
    -- The token that the verifier sends
    abbrev pub sent_token : String
    sent_token =
        let (now, w1) = P.now_secs w in
        sign_jws P (t1_payload P config.key_pair.own_did holder_did nested now (P.new_uuid w1).0)
          (signing_key P config.key_pair) config.key_pair.own_key_id
