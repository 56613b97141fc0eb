-- ===== src/Server.antt =====
-- crates/http-api/src/main.rs: reading the environment, and the state in which the server starts.
-- A panic ends the program; its message is left out. Logging and the socket are not modelled.
pub mod Laws
pub mod Run
mod Tests
use federated_catalog_rs.Prelude.{
  String, Bool, false, Option, none, some, List, Result, ok, err, ◌||◌, if◌then◌else◌,
}
use federated_catalog_rs.Text.{◌+++◌, is_empty, replace_char, eq_ignore_ascii_case}
use federated_catalog_rs.Json.{unwrap_or}
use federated_catalog_rs.Task.{Task, ◌>>=◌, ◌>>◌, lift, pure, always}
use federated_catalog_rs.Platform.{Platform}
use federated_catalog_rs.Store.{CatalogCache, StoreResult}
use federated_catalog_rs.Store.Memory.{memory}
use federated_catalog_rs.Store.Memory
use federated_catalog_rs.Store.Oxigraph.{Backend, oxigraph}
use federated_catalog_rs.Store.Oxigraph
use federated_catalog_rs.Crawler.Config.{
  ParticipantEntry, HolderConfig, ParticipantsConfig, ConfigError, ConfigSource, load,
}
use federated_catalog_rs.Dcp.Holder.{HolderIdentity}
use federated_catalog_rs.Dcp.Holder
use federated_catalog_rs.HttpApi.Verifier.{DcpConfig, generate_config}
use federated_catalog_rs.HttpApi.Auth.{DspAuthMode, disabled, bearer, dcp, DspAuthConfig}
use federated_catalog_rs.HttpApi.Handlers.{seed_sample_catalog}

pub data Panic {ℓ} : Type ℓ where
  panic : Panic

-- `std::env::var(..).ok()`
abbrev pub Env : Type 0
Env = String → Option String

abbrev default_dcp_scope : String
default_dcp_scope = "org.eclipse.dspace.dcp.vc.type:FederatedCatalogAccessCredential:read"

unfoldable pub auth_mode : Option String → Result DspAuthMode Panic
auth_mode none = ok disabled
auth_mode (some value) =
    if eq_ignore_ascii_case value "bearer"
    then ok bearer
    else if eq_ignore_ascii_case value "dcp"
    then ok dcp
    else if eq_ignore_ascii_case value "none" || is_empty value
    then ok disabled
    else err panic

-- A value that must be there, or the program panics
abbrev pub required {ℓ} : {A : Type ℓ} → Option A → Result A Panic
required none = err panic
required (some a) = ok a

abbrev pub expected {ℓ} : {A E : Type ℓ} → Result A E → Result A Panic
expected (ok a) = ok a
expected (err e) = err panic

abbrev pub is_true : Option String → Bool
is_true none = false
is_true (some v) = eq_ignore_ascii_case v "true"

-- `serde_json::from_str` for the map of the tokens, by its lookups
abbrev pub AccessReader : Type 0
AccessReader = String → Result (String → Option (List String)) String

abbrev pub catalog_access :
    AccessReader → Option String → Result (String → Option (List String)) Panic
catalog_access reader none = ok (λ token. none)
catalog_access reader (some raw) = expected (reader raw)

module _ (P : Platform) where
  open P use {World}

  -- The configuration of the verifier, in DCP mode only
  unfoldable pub dcp_config : DspAuthMode → Env → Task World (Option (DcpConfig P)) Panic
  dcp_config disabled env = pure none
  dcp_config bearer env = pure none
  dcp_config dcp env = do
    own_did_host ← lift (required (env "DSP_DCP_OWN_DID_HOST"))
    config ← always (
        generate_config P ("did:web:" +++ replace_char b':' "%3A" own_did_host +++ ":dsp")
          (is_true (env "DSP_DCP_INSECURE_HTTP"))
          (unwrap_or (env "DSP_DCP_REQUIRED_SCOPE") default_dcp_scope))
    pure (some config)

  unfoldable pub load_dsp_auth : AccessReader → Env → Task World (DspAuthConfig P) Panic
  unfolding dcp_config
  load_dsp_auth reader env = do
    mode' ← lift (auth_mode (env "DSP_AUTH_MODE"))
    access ← lift (catalog_access reader (env "DSP_CATALOG_ACCESS"))
    config ← dcp_config mode' env
    pure (record { mode = mode'; catalog_access = access; dcp = config })

  abbrev pub loaded :
      Result ParticipantsConfig ConfigError → Result (Option ParticipantsConfig) Panic
  loaded (ok config) = ok (some config)
  loaded (err e) = err panic

  abbrev pub load_path : ConfigSource → Option String → Result (Option ParticipantsConfig) Panic
  load_path source none = ok none
  load_path source (some path) = loaded (load source path)

  unfoldable pub load_crawler_config : ConfigSource → Env → Result (Option ParticipantsConfig) Panic
  load_crawler_config source env = load_path source (env "CRAWLER_CONFIG_PATH")

  abbrev new_holder : HolderConfig → World → HolderIdentity P × World
  new_holder h world =
      Holder.new P h.own_did_host h.insecure_http h.credential_jws h.required_scope world

  abbrev pub holder_of : Option HolderConfig → World → Option (HolderIdentity P) × World
  holder_of none world = (none, world)
  holder_of (some h) world = let (holder, world') = new_holder h world in (some holder, world')

  unfoldable pub build_holder : ParticipantsConfig → World → Option (HolderIdentity P) × World
  build_holder config world = holder_of config.holder world

  -- What the server starts with: its cache and the state of it, how it authorizes, its holder, and
  -- the crawler's configuration if it is to crawl
  pub record Server : Type 1 where
    pub cache : CatalogCache
    pub state : cache.State
    pub dsp_auth : DspAuthConfig P
    pub holder : Option (HolderIdentity P)
    pub crawler : Option ParticipantsConfig

  abbrev pub seeded :
      DspAuthConfig P → StoreResult (Unit {0}) × Memory.InMemoryCatalogCache → Result Server Panic
  seeded auth (ok u, state') =
      ok (record { cache = memory; state = state'; dsp_auth = auth; holder = none; crawler = none })
  seeded auth (err e, state') = err panic

  abbrev pub crawling :
      (b : Backend)
      → DspAuthConfig P
      → ParticipantsConfig
      → StoreResult b.GraphStore
      → World
      → Result Server Panic × World
  crawling b auth config (err e) world = (err panic, world)
  crawling b auth config (ok store) world =
      let (holder, world') = build_holder config world in
      (
        ok (record {
          cache = oxigraph b;
          state = store;
          dsp_auth = auth;
          holder = holder;
          crawler = some config;
        }),
        world',
      )

  abbrev pub started :
      (b : Backend)
      → DspAuthConfig P
      → Option ParticipantsConfig
      → World
      → Result Server Panic × World
  started b auth none world = (seeded auth (seed_sample_catalog memory Memory.new), world)
  started b auth (some config) world = crawling b auth config (Oxigraph.in_memory b) world

  abbrev pub start_loaded :
      (b : Backend)
      → DspAuthConfig P
      → Result (Option ParticipantsConfig) Panic
      → World
      → Result Server Panic × World
  start_loaded b auth (ok config) world = started b auth config world
  start_loaded b auth (err e) world = (err panic, world)

  abbrev pub start_with :
      (b : Backend)
      → ConfigSource
      → Env
      → Result (DspAuthConfig P) Panic × World
      → Result Server Panic × World
  start_with b source env (err e, world) = (err panic, world)
  start_with b source env (ok auth, world) =
      start_loaded b auth (load_crawler_config source env) world

  -- `main`, up to the call of the listener
  unfoldable pub start :
      (b : Backend) → ConfigSource → AccessReader → Env → World → Result Server Panic × World
  unfolding load_dsp_auth load_crawler_config build_holder
  start b source reader env world = start_with b source env (load_dsp_auth reader env world)
