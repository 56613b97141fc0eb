-- ===== src/HttpApi/Federation/Handshake.antt =====
-- The whole exchange between two servers when one crawls the other: the crawler's request
-- (crates/crawler/src/lib.rs), the query of the participant's verifier (crates/http-api/src/dcp.rs), and
-- the answer of the crawler's own server (crates/http-api/src/lib.rs).
mod World
mod Tests
use federated_catalog_rs.Prelude.{ℕ, String, ◌≡◌, Bool, Result, ◌∙◌, List, [], ◌∷◌, ok}
use federated_catalog_rs.Text.{◌+++◌, trim}
use federated_catalog_rs.Json.{obj, arr, string}
use federated_catalog_rs.Platform.{Platform, Response}
use federated_catalog_rs.Dcp.Jws.{jws_header}
use federated_catalog_rs.Dcp.Jws.Laws.{IsFaithful, ReadsBack}
use federated_catalog_rs.Dcp.Documents.Laws.{HasP256Keys}
use federated_catalog_rs.Dcp.Holder.{HolderIdentity, t1_payload, vp_payload, minted_payload}
use federated_catalog_rs.HttpApi.Verifier.{DcpConfig, presentation_query, generate_config}
use federated_catalog_rs.HttpApi.Verifier.Grants.{Grants}
use federated_catalog_rs.HttpApi.Verifier.Presented.{query_token}
use federated_catalog_rs.HttpApi.Verifier.Exchange.{pair_of}
use federated_catalog_rs.HttpApi.Verifier.Admission.{holder, presentation_at}
use federated_catalog_rs.HttpApi.Router.{AppState, Dispatcher, IsRouting}
use federated_catalog_rs.HttpApi.Federation.Gated.{token}

module _ (P : Platform) (faithful : IsFaithful P) (keys : HasP256Keys P) (host : String)
    (insecure : Bool) (credential scope : String) (w0 : P.World) (services : List (String × String))
    (did : String) (insecure_http : Bool) (required_scope : String) (u0 : P.World) where
  -- The holder of the crawling server, and the verifier of the participant that it crawls
  abbrev crawler : HolderIdentity P
  crawler = holder P faithful keys host insecure credential scope w0 services

  abbrev verifier : DcpConfig P
  verifier = (generate_config P did insecure_http required_scope u0).0

  module _ (dispatch : Dispatcher) (routing : IsRouting dispatch) (app : AppState P)
      (state : app.cache.State) (own_services : List (String × String)) (nested base : String)
      (hv hw hw1 : P.World) where
    -- The world in which the verifier has checked the crawler's token
    abbrev v : P.World
    v = (P.now_secs hv).1

    -- The query's token, the request that carries it, and the holder's clock and random id
    abbrev query : String
    query = query_token P verifier crawler.key_pair.own_did nested v

    abbrev sent : Result Response String × P.World
    sent =
        P.send (presentation_query P (base +++ "/presentations/query") query required_scope)
          (P.new_uuid (P.now_secs v).1).1

    abbrev answered_at : ℕ
    answered_at = (P.now_secs (P.now_secs hw1).1).0

    abbrev answer_id : String
    answer_id = (P.new_uuid (P.now_secs (P.now_secs hw1).1).1).0

    abbrev answer : String
    answer =
        presentation_at P faithful keys host insecure credential scope w0 services answered_at
          answer_id

    -- The texts of the exchange read back: the headers and payloads of the three tokens, the message of
    -- the answer, and the bearer tokens, which have no white space at their ends.
    pub record IsReadable (w : P.World) : Type 0 where
      pub header : ReadsBack P (jws_header crawler.key_pair.own_key_id)
      pub minted : ReadsBack P (minted_payload P crawler verifier.key_pair.own_did w).0
      pub presented :
          ReadsBack P (vp_payload P crawler.key_pair.own_did credential answered_at answer_id)
      pub query_header : ReadsBack P (jws_header verifier.key_pair.own_key_id)
      pub query_payload : ReadsBack P (
          t1_payload P verifier.key_pair.own_did crawler.key_pair.own_did nested
            (P.now_secs v).0
            (P.new_uuid (P.now_secs v).1).0)
      pub message :
          P.presentation_from_value (obj (("presentation", arr (string answer ∷ [])) ∷ []))
          ≡ ok (answer ∷ [])
      pub token_ends :
          let t =
            token P faithful keys host insecure credential scope w0 services verifier w hv hv in
          trim t ≡ t
      pub query_ends : trim query ≡ query
