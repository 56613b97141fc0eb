-- ===== src/Server/Tests.antt =====
-- The theorems on the start of the server at concrete inputs.
use federated_catalog_rs.Prelude.{
  String, ◌≡◌, refl, true, false, none, some, [], ◌∷◌, All, ok, ◌==◌, if◌then◌else◌,
}
use federated_catalog_rs.Text.{eq_ignore_ascii_case, replace_char}
use federated_catalog_rs.Json.{obj}
use federated_catalog_rs.Platform.{Platform}
use federated_catalog_rs.Testbed.{testbed}
use federated_catalog_rs.Store.Oxigraph
use federated_catalog_rs.Store.Oxigraph.{oxigraph}
use federated_catalog_rs.Crawler.Crawl.{authorization}
use federated_catalog_rs.Dcp.Holder
use federated_catalog_rs.Store.ListStore.{list_store}
use federated_catalog_rs.Crawler.Config.{
  ParticipantsConfig, ConfigSource, load, parse, validate, validate_entries, check_entry,
}
use federated_catalog_rs.Dcp.Documents.{generate}
use federated_catalog_rs.HttpApi.Verifier.{generate_config}
use federated_catalog_rs.HttpApi.Auth.{DspAuthConfig, dcp}
use federated_catalog_rs.Server.{
  Env, AccessReader, auth_mode, dcp_config, load_dsp_auth, load_crawler_config, build_holder,
  Server, start,
}
use federated_catalog_rs.Server.Laws.{start_authorized}

abbrev pub world : Platform
world = testbed "kid" (obj []) (obj [])

abbrev pub env : Env
env name =
    if name == "DSP_AUTH_MODE"
    then some "DCP"
    else if name == "DSP_DCP_OWN_DID_HOST"
    then some "localhost:80"
    else if name == "CRAWLER_CONFIG_PATH"
    then some "crawler.toml"
    else none

abbrev pub reader : AccessReader
reader raw = ok (λ token. none)

abbrev pub config : ParticipantsConfig
config = record {
  interval_secs = 60;
  participants =
      record {
        id = "p";
        name = "P";
        catalog_request_url = "http://p";
        requires_dcp = true;
        provider_did = some "did:web:p";
      }
      ∷ [];
  holder = some (record {
    own_did_host = "localhost:80";
    insecure_http = true;
    credential_jws = "h.p.s";
    required_scope = "scope";
  });
}

abbrev pub source : ConfigSource
source = record { toml_from_str = λ raw. ok config; read_to_string = λ path. ok "raw" }

abbrev pub auth : DspAuthConfig world
auth = record {
  mode = dcp;
  catalog_access = λ token. none;
  dcp =
      some
        (generate_config world "did:web:localhost%3A80:dsp" false
          "org.eclipse.dspace.dcp.vc.type:FederatedCatalogAccessCredential:read" 7).0;
}

loads_auth : load_dsp_auth world reader env 7 ≡ (ok auth, 7)
unfolding load_dsp_auth auth_mode dcp_config eq_ignore_ascii_case replace_char generate_config
    generate
loads_auth = refl

-- The server that it starts: on an empty store, with a new holder
abbrev pub server : Server world
server = record {
  cache = oxigraph list_store;
  state = [];
  dsp_auth = auth;
  holder = (build_holder world config 7).0;
  crawler = some config;
}

pub starts : start world list_store source reader env 7 ≡ (ok server, 7)
unfolding start load_crawler_config Oxigraph.in_memory load_dsp_auth auth_mode dcp_config
    eq_ignore_ascii_case replace_char generate_config generate load parse validate validate_entries
    check_entry build_holder Holder.new
starts = refl

start_authorized_example :
    All
      (λ p. (auth : String) × ((authorization world p server.holder 9).0 ≡ ok auth))
      config.participants
start_authorized_example =
    start_authorized world list_store source reader env 7 server 7 config 9 starts refl
