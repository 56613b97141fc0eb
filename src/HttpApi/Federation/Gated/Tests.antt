-- ===== src/HttpApi/Federation/Gated/Tests.antt =====
-- The theorem on a gated crawl at a concrete exchange, in a small outside world that reads back
-- the tokens of the exchange.
use federated_catalog_rs.Prelude.{ℕ, String, ◌≡◌, refl, true, List, [], ◌∷◌, ok, some, none, arith}
use federated_catalog_rs.Text.{
  trim, trim_start, trim_end, replace_char, split, join, strip_prefix, replace, ◌+++◌,
}
use mathlib.Core.List.{Memᴰ}
use federated_catalog_rs.Json.{string, unwrap_or, null, get, get_str, get_u64, get_array, lookup}
use federated_catalog_rs.Testbed.{read_document}
use federated_catalog_rs.Dcp.Jws.{sign_jws, decode_jws_unverified, verify_jws_signature, b64_decode}
use federated_catalog_rs.Dcp.DidWeb.{did_web_to_url, urlencoding_decode}
use federated_catalog_rs.Dcp.Documents.{
  generate, signing_key, find_verifying_key, jwk_to_verifying_key, service_endpoint_url,
}
use federated_catalog_rs.Dcp.Resolve.{resolve_did}
use federated_catalog_rs.Dcp.Holder.{
  HolderIdentity, new, mint_self_issued_token, answer_presentation_query,
}
use federated_catalog_rs.Dcp.Holder.Laws.{IsEntitled}
use federated_catalog_rs.HttpApi.Verifier.{
  DcpConfig, generate_config, presented_credentials, query_presentation, granted,
}
use federated_catalog_rs.HttpApi.Verifier.Grants.{Grants, access, a_text, no_values}
use federated_catalog_rs.HttpApi.Verifier.Presented.{Returned}
use federated_catalog_rs.HttpApi.Verifier.Credentials.{IsSigned}
use federated_catalog_rs.Crawler.Config.{ParticipantEntry}
use federated_catalog_rs.Crawler.Crawl.{authorization}
use federated_catalog_rs.HttpApi.Auth.{DspAuthConfig, dcp, authorize}
use federated_catalog_rs.HttpApi.Federation.Gated.World.{
  own_did, header, query_claims, document, minted_claims, credential_claims, world, print, faithful,
  keys,
}
use federated_catalog_rs.HttpApi.Federation.Gated.{authorize-authorization}
use federated_catalog_rs.HttpApi.Verifier.Admission.{
  holder_doc, presented_credentials-answer_presentation_query,
}

abbrev config : DcpConfig world
config = (generate_config world "did:web:verifier" true "scope" 0).0

abbrev services : List (String × String)
services = ("CredentialService", "http://localhost:80/dsp/holder") ∷ []

exchange : Unit {0}
unfolding split join strip_prefix replace replace_char get_str get_u64 get_array get lookup
    decode_jws_unverified verify_jws_signature b64_decode did_web_to_url urlencoding_decode
    resolve_did find_verifying_key jwk_to_verifying_key service_endpoint_url sign_jws signing_key
    print read_document query_presentation granted new generate generate_config
    mint_self_issued_token
exchange = tt

resolves :
    resolve_did world own_did true 10
    ≡ (ok (holder_doc world faithful keys "localhost:80" true "h.c.s" "scope" 0 services), 10)
unfolding exchange
resolves = refl

-- The network answers the server's query with the holder's presentation.
returned :
    Returned world config own_did
      (holder_doc world faithful keys "localhost:80" true "h.c.s" "scope" 0 services)
      minted_claims
      10
      "h.p.s"
      11
unfolding exchange
returned = record {
  nested = "h.n.s";
  base = "http://localhost:80/dsp/holder";
  response = record { status = 200; json = ok document; text = ok "" };
  message = document;
  others = [];
  has_token = refl;
  has_service = refl;
  answered = refl;
  succeeded = refl;
  is_json = refl;
  read = refl;
}

grants : Grants (unwrap_or (get "vc" credential_claims) null) ("CAT0101" ∷ [])
unfolding exchange
grants =
    access (string "FederatedCatalogAccessCredential", Memᴰ.head refl, refl) (a_text refl no_values)

signed : IsSigned world true "h.c.s" "did:web:issuer" credential_claims 11
unfolding exchange
signed = record {
  authentic = record {
    signing_input = "h.c";
    header = header;
    kid = own_did +++ "#dsp-key";
    doc = holder_doc world faithful keys "localhost:80" true "h.c.s" "scope" 0 services;
    key = tt;
    w1 = 11;
    decoded = refl;
    has_iss = refl;
    has_kid = refl;
    resolved = refl;
    listed = refl;
    verified = refl;
  };
  unexpired = omega arith;
}

abbrev gated : ParticipantEntry
gated = record {
  id = "p";
  name = "p";
  catalog_request_url = "https://p.example/catalog/request";
  requires_dcp = true;
  provider_did = some "did:web:verifier";
}

abbrev auth : DspAuthConfig world
auth = record { mode = dcp; catalog_access = λ token. none; dcp = some config }

abbrev crawling : HolderIdentity world
crawling = (new world "localhost:80" true "h.c.s" "scope" 0).0

sends : authorization world gated (some crawling) 7 ≡ (ok "Bearer h.m.s", 9)
unfolding exchange authorization
sends = refl

authorize-authorization_example :
    (authorize world auth (some "Bearer h.m.s") 10).0 ≡ ok (some ("CAT0101" ∷ []))
unfolding exchange trim trim_start trim_end
authorize-authorization_example =
    authorize-authorization world faithful keys "localhost:80" true "h.c.s" "scope" 0 services
      config 7 10 10 gated auth "Bearer h.m.s" 9 8 "uuid" "did:web:issuer" credential_claims
      ("CAT0101" ∷ []) 11 refl refl refl refl sends refl refl refl refl resolves (omega arith)
      returned signed grants

entitled : IsEntitled world crawling "h.q.s" 8
unfolding exchange
entitled = record {
  signing_input = "h.q";
  header = header;
  payload = query_claims;
  caller_did = "did:web:verifier";
  kid = own_did +++ "#dsp-key";
  caller_doc = holder_doc world faithful keys "localhost:80" true "h.c.s" "scope" 0 services;
  caller_key = tt;
  w1 = 8;
  decoded = refl;
  has_iss = refl;
  has_kid = refl;
  resolved = refl;
  listed = refl;
  verified = refl;
  addressed = refl;
  unexpired = omega arith;
}

presented_credentials-answer_presentation_query_example :
    (vp : String) × (w4 : ℕ) × (answer_presentation_query world crawling "h.q.s" 8
      ≡ (ok (vp ∷ []), w4))
    × ((v : ℕ)
        → presented_credentials world
            (holder_doc world faithful keys "localhost:80" true "h.c.s" "scope" 0 services)
            vp
            v
          ≡ (ok (string "h.c.s" ∷ []), v))
unfolding exchange entitled
presented_credentials-answer_presentation_query_example =
    presented_credentials-answer_presentation_query world faithful keys "localhost:80" true "h.c.s"
      "scope" 0 services "h.q.s" 8 entitled refl refl
