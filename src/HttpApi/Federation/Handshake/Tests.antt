-- ===== src/HttpApi/Federation/Handshake/Tests.antt =====
-- The theorem on the whole exchange between two servers, in a small outside world.
use federated_catalog_rs.Prelude.{String, true, List, [], ◌∷◌, some, none}
use federated_catalog_rs.Text.{
  trim, trim_start, trim_end, replace_char, split, join, strip_prefix, replace,
}
use federated_catalog_rs.Json.{get, get_str, get_u64, get_array, lookup}
use federated_catalog_rs.Did.{DidDocument}
use federated_catalog_rs.Testbed.{read_document}
use federated_catalog_rs.Store.Memory
use federated_catalog_rs.Store.Memory.{memory}
use federated_catalog_rs.Dcp.Jws.{sign_jws, decode_jws_unverified, verify_jws_signature, b64_decode}
use federated_catalog_rs.Dcp.DidWeb.{did_web_to_url, urlencoding_decode}
use federated_catalog_rs.Dcp.Documents.{
  generate, signing_key, find_verifying_key, jwk_to_verifying_key, service_endpoint_url,
}
use federated_catalog_rs.Dcp.Resolve.{resolve_did}
use federated_catalog_rs.Dcp.Holder.{
  HolderIdentity, new, mint_self_issued_token, answer_presentation_query,
}
use federated_catalog_rs.HttpApi.Verifier.{DcpConfig, generate_config}
use federated_catalog_rs.HttpApi.Verifier.Grants.{Grants}
use federated_catalog_rs.HttpApi.Verifier.Admission.{holder_doc}
use federated_catalog_rs.Crawler.Config.{ParticipantEntry}
use federated_catalog_rs.Crawler.Crawl.{authorization}
use federated_catalog_rs.HttpApi.Auth.{DspAuthConfig, dcp, bearer_token}
use federated_catalog_rs.HttpApi.Handlers.{holder_presentation_query_route}
use federated_catalog_rs.HttpApi.Router.{AppState, app_state, with_holder, serve}
use federated_catalog_rs.HttpApi.Router.Testbed.{dispatch}
use federated_catalog_rs.HttpApi.Federation.Handshake.World.{world, print, faithful, keys}

abbrev verifier : DcpConfig world
verifier = (generate_config world "did:web:verifier" true "scope" 0).0

abbrev services : List (String × String)
services = ("CredentialService", "http://localhost:80/dsp/holder") ∷ []

abbrev crawler : HolderIdentity world
crawler = (new world "localhost:80" true "h.c.s" "scope" 0).0

abbrev crawler_app : AppState world
crawler_app = with_holder world (some crawler) (app_state world memory)

abbrev crawler_doc : DidDocument
crawler_doc = holder_doc world faithful keys "localhost:80" true "h.c.s" "scope" 0 services

exchange : Unit {0}
unfolding split join strip_prefix replace replace_char get_str get_u64 get_array get lookup
    decode_jws_unverified verify_jws_signature b64_decode did_web_to_url urlencoding_decode
    resolve_did find_verifying_key jwk_to_verifying_key service_endpoint_url sign_jws signing_key
    print read_document new generate generate_config mint_self_issued_token trim trim_start trim_end
    serve dispatch bearer_token holder_presentation_query_route answer_presentation_query
    authorization
exchange = tt

abbrev gated : ParticipantEntry
gated = record {
  id = "p";
  name = "p";
  catalog_request_url = "https://p.example/catalog/request";
  requires_dcp = true;
  provider_did = some "did:web:verifier";
}

abbrev auth : DspAuthConfig world
auth = record { mode = dcp; catalog_access = λ token. none; dcp = some verifier }
