-- ===== src/Server/Laws.antt =====
-- What every server that starts has in place.
use federated_catalog_rs.Prelude.{
  String, ◌≡◌, refl, ◌≢◌, ap, Option, none, some, Result, ok, err, All, arith, subst, ok-injective,
}
use federated_catalog_rs.Task.{lift_bind-eq-ok, >>=-eq-ok}
use federated_catalog_rs.Platform.{Platform}
use federated_catalog_rs.Store.Contract.{is_some}
use federated_catalog_rs.Store.Oxigraph.{Backend}
use federated_catalog_rs.Store.{StoreResult}
use federated_catalog_rs.Store.Memory
use federated_catalog_rs.Store.Oxigraph
use federated_catalog_rs.Crawler.Config.{
  HolderConfig, ParticipantsConfig, ConfigError, ConfigSource, validate, load,
}
use federated_catalog_rs.Crawler.Config.Laws.{load_sound, validate_iff}
use federated_catalog_rs.Crawler.Crawl.Laws.{authorization-validate}
use federated_catalog_rs.Crawler.Crawl.{authorization}
use federated_catalog_rs.HttpApi.Verifier.{DcpConfig}
use federated_catalog_rs.HttpApi.Auth.{DspAuthMode, disabled, bearer, dcp, DspAuthConfig}
use federated_catalog_rs.HttpApi.Auth.Laws.{IsConsistent}
use federated_catalog_rs.Server.{
  Panic, Env, AccessReader, auth_mode, catalog_access, required, dcp_config, load_dsp_auth,
  build_holder, Server, start, load_crawler_config, load_path, loaded, start_loaded, seeded,
  crawling, start_with, holder_of,
}

module _ (P : Platform) where
  dcp_config-some :
      (m : DspAuthMode) (env : Env) (w : P.World) (config : Option (DcpConfig P)) (w1 : P.World)
      → dcp_config P m env w ≡ (ok config, w1)
      → m ≡ dcp
      → config ≢ none
  unfolding dcp_config
  dcp_config-some disabled env w config w1 e m n = ground (arith, m)
  dcp_config-some bearer env w config w1 e m n = ground (arith, m)
  dcp_config-some dcp env w config w1 e m n =
      let (host, h, e1) = lift_bind-eq-ok (required (env "DSP_DCP_OWN_DID_HOST")) _ w e in
      let same =
        ok-injective (ap (λ (r : Result (Option (DcpConfig P)) Panic × P.World). r.0) e1) in
      ground (arith, same, n)

  -- The authorization that is read from the environment has a verifier's configuration if it is in
  -- DCP mode, so that no handler panics for want of it.
  pub load_dsp_auth-IsConsistent :
      (reader : AccessReader) (env : Env) (w : P.World) (auth : DspAuthConfig P) (w1 : P.World)
      → load_dsp_auth P reader env w ≡ (ok auth, w1)
      → IsConsistent P auth
  unfolding load_dsp_auth
  load_dsp_auth-IsConsistent reader env w auth w1 e =
      let (mode', m, e1) = lift_bind-eq-ok (auth_mode (env "DSP_AUTH_MODE")) _ w e in
      let (access, a, e2) =
        lift_bind-eq-ok (catalog_access reader (env "DSP_CATALOG_ACCESS")) _ w e1 in
      let (config, w2, c, e3) = >>=-eq-ok (dcp_config P mode' env) _ w e2 in
      subst (IsConsistent P)
        (ok-injective (ap (λ (r : Result (DspAuthConfig P) Panic × P.World). r.0) e3))
        (λ is_dcp. dcp_config-some mode' env w config w2 c is_dcp)

  -- A server that is to crawl can authenticate at every participant that requires it.
  abbrev IsReady : Server P → Type 0
  IsReady server =
      (config : ParticipantsConfig) (w : P.World)
      → server.crawler ≡ some config
      → All (λ p. (auth : String) × ((authorization P p server.holder w).0 ≡ ok auth))
          config.participants

  abbrev StartsReady : Result (Server P) Panic → Type 0
  StartsReady (ok server) = IsReady server
  StartsReady (err e) = Unit

  seeded-StartsReady :
      (auth : DspAuthConfig P) (r : StoreResult (Unit {0}) × Memory.InMemoryCatalogCache)
      → StartsReady (seeded P auth r)
  seeded-StartsReady auth (ok u, s) = λ config w e. ground (arith, e)
  seeded-StartsReady auth (err x, s) = tt

  crawling-StartsReady :
      (b : Backend) (auth : DspAuthConfig P) (config : ParticipantsConfig)
      (r : StoreResult b.GraphStore) (w : P.World)
      → validate config ≡ ok tt
      → StartsReady (crawling P b auth config r w).0
  unfolding build_holder
  crawling-StartsReady b auth config (err e) w v = tt
  crawling-StartsReady b auth config (ok store) w v = λ config' w' e.
      let same : config ≡ config' = ground (arith, e) in
      subst
        (λ c.
          All
            (λ p.
              (auth : String) × ((authorization P p (build_holder P config w).0 w').0 ≡ ok auth))
            c.participants)
        same
        (authorization-validate P config (build_holder P config w).0 w' v
          (holder_some config.holder))
    where
      holder_some : (h : Option HolderConfig) → is_some (holder_of P h w).0 ≡ is_some h
      holder_some none = refl
      holder_some (some h) = refl

  -- A result that has only valid configurations
  abbrev IsValid : Result (Option ParticipantsConfig) Panic → Type 0
  IsValid (ok none) = Unit
  IsValid (ok (some c)) = validate c ≡ ok tt
  IsValid (err e) = Unit

  path-IsValid : (source : ConfigSource) (path : Option String) → IsValid (load_path P source path)
  path-IsValid source none = tt
  path-IsValid source (some path) = loaded-IsValid (load source path) refl
    where
      loaded-IsValid :
          (r : Result ParticipantsConfig ConfigError) → load source path ≡ r → IsValid (loaded P r)
      loaded-IsValid (ok c) e = (validate_iff c).1 (load_sound source path c e)
      loaded-IsValid (err x) e = tt

  start-StartsReady :
      (b : Backend) (source : ConfigSource) (reader : AccessReader) (env : Env) (w : P.World)
      → StartsReady (start P b source reader env w).0
  unfolding start load_crawler_config
  start-StartsReady b source reader env w = with_auth (load_dsp_auth P reader env w)
    where
      with_config :
          (auth : DspAuthConfig P) (w1 : P.World) (r : Result (Option ParticipantsConfig) Panic)
          → IsValid r
          → StartsReady (start_loaded P b auth r w1).0
      with_config auth w1 (ok none) v = seeded-StartsReady auth _
      with_config auth w1 (ok (some c)) v =
          crawling-StartsReady b auth c (Oxigraph.in_memory b) w1 v
      with_config auth w1 (err e) v = tt

      with_auth :
          (a : Result (DspAuthConfig P) Panic × P.World)
          → StartsReady (start_with P b source env a).0
      with_auth (err e, w1) = tt
      with_auth (ok auth, w1) =
          with_config auth w1 (load_crawler_config P source env)
            (path-IsValid source (env "CRAWLER_CONFIG_PATH"))

  -- A server that has started with the crawler on can make the request to each configured
  -- participant, whatever the environment and the file said: none fails for want of a holder or of a
  -- provider's DID.
  pub start_authorized :
      (b : Backend) (source : ConfigSource) (reader : AccessReader) (env : Env) (w : P.World)
      (server : Server P) (w1 : P.World) (config : ParticipantsConfig) (w2 : P.World)
      → start P b source reader env w ≡ (ok server, w1)
      → server.crawler ≡ some config
      → All
          (λ p. (auth : String) × ((authorization P p server.holder w2).0 ≡ ok auth))
          config.participants
  start_authorized b source reader env w server w1 config w2 e c =
      subst StartsReady (ap (λ (r : Result (Server P) Panic × P.World). r.0) e)
        (start-StartsReady b source reader env w) config w2 c
