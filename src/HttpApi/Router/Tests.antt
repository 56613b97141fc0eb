-- ===== src/HttpApi/Router/Tests.antt =====
-- The theorems on the router at concrete inputs.
use federated_catalog_rs.Prelude.{
  String, ◌≡◌, refl, true, some, none, [], ◌∷◌, ok, ◌==◌, if◌then◌else◌,
}
use federated_catalog_rs.Text.{◌+++◌, split, join, strip_prefix, replace, replace_char, trim}
use federated_catalog_rs.Text.Splitting.{lacks-Lacks}
use federated_catalog_rs.Json.{
  Value, obj, arr, nat, string, get_str, get_u64, get_array, get, lookup,
}
use federated_catalog_rs.Did.{DidDocument}
use federated_catalog_rs.Platform.{Platform}
use federated_catalog_rs.Testbed
use federated_catalog_rs.Testbed.{
  testbed, testbed-IsFaithful, testbed-HasP256Keys, testbed-ReadsDocuments,
}
use federated_catalog_rs.Store.Memory
use federated_catalog_rs.Store.Memory.{memory}
use federated_catalog_rs.Dcp.Jws.{decode_jws_unverified, verify_jws_signature, b64_decode, sign_jws}
use federated_catalog_rs.Dcp.DidWeb.{did_web_to_url, urlencoding_decode}
use federated_catalog_rs.Dcp.Documents.{
  DcpKeyPair, generate, did_document, signing_key, find_verifying_key, jwk_to_verifying_key,
  service_endpoint_url,
}
use federated_catalog_rs.Dcp.Resolve.{resolve_did, get_request}
use federated_catalog_rs.Dcp.Holder.{
  HolderIdentity, new, own_did_document, answer_presentation_query,
}
use federated_catalog_rs.HttpApi.Verifier
use federated_catalog_rs.HttpApi.Verifier.{DcpConfig, generate_config}
use federated_catalog_rs.HttpApi.Auth.{dcp, bearer_token}
use federated_catalog_rs.HttpApi.Handlers.{
  own_did_document_route, holder_did_document_route, holder_presentation_query_route,
}
use federated_catalog_rs.HttpApi.Router.{
  AppState, app_state, with_holder, with_dsp_auth, serve, Delivers,
}
use federated_catalog_rs.HttpApi.Router.Documents.{
  get_path, resolve_did-serve_holder, resolve_did-serve_verifier,
}
use federated_catalog_rs.HttpApi.Router.Testbed.{dispatch, dispatch-IsRouting}

abbrev nowhere : Platform
nowhere = testbed "kid" (obj []) (obj [])

-- A network in which the holder's document answers every request
abbrev holder_network : Platform
holder_network =
    testbed "kid" (obj [])
      (own_did_document nowhere (new nowhere "localhost:80" true "h.p.s" "scope" 7).0)

abbrev holder_app : AppState holder_network
holder_app =
    with_holder holder_network (some (new holder_network "localhost:80" true "h.p.s" "scope" 7).0)
      (app_state holder_network memory)

holder_delivered :
    Delivers
      (serve holder_network dispatch holder_app (get_path "/dsp/holder/did.json") Memory.new 8).0
      (holder_network.send
        (get_request holder_network "http://localhost:80/dsp/holder/did.json")
        9).0
unfolding serve dispatch strip_prefix holder_did_document_route own_did_document did_document new
    generate
holder_delivered = (_, refl, refl, refl)

resolve_did-serve_holder_example :
    (doc : DidDocument) × ((resolve_did holder_network "did:web:localhost%3A80:dsp:holder" true 9).0
      ≡ ok doc)
    × (find_verifying_key holder_network doc "did:web:localhost%3A80:dsp:holder#dsp-key"
        ≡ ok (
            holder_network.verifying_key_of (
              signing_key holder_network
                (new holder_network "localhost:80" true "h.p.s" "scope" 7).0.key_pair)))
    × (service_endpoint_url doc "CredentialService" ≡ ok "http://localhost:80/dsp/holder")
unfolding new generate replace_char
resolve_did-serve_holder_example =
    resolve_did-serve_holder holder_network (testbed-IsFaithful "kid" (obj []) _)
      (testbed-HasP256Keys "kid" (obj []) _) (testbed-ReadsDocuments "kid" (obj []) _) dispatch
      dispatch-IsRouting holder_app "localhost:80" true "h.p.s" "scope" 7 8 9 Memory.new
      (lacks-Lacks b'%' "localhost:80" refl) refl holder_delivered

-- And one in which the verifier's document does
abbrev verifier_network : Platform
verifier_network = testbed "kid" (obj []) (
    Verifier.own_did_document nowhere
      (generate_config nowhere "did:web:localhost%3A80:dsp" true "scope" 7).0)

abbrev verifier_config : DcpConfig verifier_network
verifier_config = (generate_config verifier_network "did:web:localhost%3A80:dsp" true "scope" 7).0

abbrev verifier_app : AppState verifier_network
verifier_app =
    with_dsp_auth verifier_network
      (record { mode = dcp; catalog_access = λ token. none; dcp = some verifier_config })
      (app_state verifier_network memory)

verifier_delivered :
    Delivers
      (serve verifier_network dispatch verifier_app (get_path "/dsp/did.json") Memory.new 8).0
      (verifier_network.send (get_request verifier_network "http://localhost:80/dsp/did.json") 9).0
unfolding serve dispatch strip_prefix own_did_document_route Verifier.own_did_document did_document
    generate_config generate
verifier_delivered = (_, refl, refl, refl)

verifier_configured :
    verifier_app.dsp_auth.dcp
    ≡ some
        (generate_config verifier_network
          ("did:web:" +++ replace_char b':' "%3A" "localhost:80" +++ ":dsp")
          true
          "scope"
          7).0
unfolding replace_char
verifier_configured = refl

resolve_did-serve_verifier_example :
    (doc : DidDocument) × ((resolve_did verifier_network "did:web:localhost%3A80:dsp" true 9).0
      ≡ ok doc)
    × (find_verifying_key verifier_network doc "did:web:localhost%3A80:dsp#dsp-key"
        ≡ ok (
            verifier_network.verifying_key_of
              (signing_key verifier_network verifier_config.key_pair)))
unfolding generate_config generate replace_char
resolve_did-serve_verifier_example =
    resolve_did-serve_verifier verifier_network (testbed-IsFaithful "kid" (obj []) _)
      (testbed-HasP256Keys "kid" (obj []) _) (testbed-ReadsDocuments "kid" (obj []) _) dispatch
      dispatch-IsRouting verifier_app "localhost:80" true "scope" 7 8 9 Memory.new
      (lacks-Lacks b'%' "localhost:80" refl) verifier_configured verifier_delivered

-- The payload of the query of `did:web:verifier` to a holder, at time 7
abbrev query_payload : Value
query_payload = obj (
    ("aud", string "did:web:holder")
    ∷ ("exp", nat 307)
    ∷ ("iat", nat 7)
    ∷ ("iss", string "did:web:verifier")
    ∷ ("jti", string "uuid")
    ∷ ("nbf", nat 7)
    ∷ ("sub", string "did:web:verifier")
    ∷ ("token", string "t2")
    ∷ [])

abbrev verifier_document : Value
verifier_document = obj (
    ("service", arr [])
    ∷ (
      "verificationMethod",
      arr (
          obj (
            ("id", string "did:web:verifier#dsp-key")
            ∷ ("publicKeyJwk", obj (("x", string "c") ∷ ("y", string "c") ∷ []))
            ∷ [])
          ∷ []),
    )
    ∷ [])

-- The holder answers queries, and the verifier's document answers the rest.
abbrev answer_of : String → Value
answer_of url =
    if url == "http://holder/presentations/query"
    then obj (("presentation", arr (string "h.p.s" ∷ [])) ∷ [])
    else verifier_document

abbrev network : Platform
network = record (testbed "did:web:verifier#dsp-key" query_payload verifier_document) {
  send = λ r w. (ok (record { status = 200; json = ok (answer_of r.url); text = ok "" }), w);
}

abbrev key_pair_of : String → String → DcpKeyPair network
key_pair_of did kid = record {
  own_did = did;
  own_key_id = kid;
  signing_key_bytes = Testbed.key_bytes;
  public_key_xy = (Testbed.coordinate_bytes, Testbed.coordinate_bytes);
}

abbrev querying : DcpConfig network
querying = record {
  key_pair = key_pair_of "did:web:verifier" "did:web:verifier#dsp-key";
  insecure_http = true;
  required_scope = "scope";
}

abbrev queried : HolderIdentity network
queried = record {
  key_pair = key_pair_of "did:web:holder" "did:web:holder#dsp-key";
  own_did_host = "holder";
  insecure_http = true;
  credential_jws = "h.p.s";
  required_scope = "scope";
}

abbrev queried_app : AppState network
queried_app = with_holder network (some queried) (app_state network memory)

abbrev queried_doc : DidDocument
queried_doc = record {
  verification_method = [];
  service = record { ty = "CredentialService"; service_endpoint = "http://holder" } ∷ [];
}

abbrev presented_payload : Value
presented_payload = obj (("token", string "t2") ∷ [])

query_tests : Unit {0}
unfolding split join strip_prefix replace trim get_str get_u64 get_array get lookup
    decode_jws_unverified verify_jws_signature b64_decode did_web_to_url urlencoding_decode
    resolve_did find_verifying_key jwk_to_verifying_key service_endpoint_url sign_jws signing_key
    Testbed.print Testbed.read_document answer_presentation_query serve dispatch bearer_token
    holder_presentation_query_route
query_tests = tt
