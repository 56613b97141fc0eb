-- ===== src/Server/Run/Started.antt =====
-- From the start of the program on: the server that `main` starts, and what its callers get.
use federated_catalog_rs.Prelude.{
  String, ◌≡◌, refl, sym, ap, ◌∙◌, subst, Bool, ok-injective, map_err, ◌⊎◌, inl, inr, Option, none,
  some, List, [], Result, ok, err, arith, if◌then◌else◌,
}
use federated_catalog_rs.Platform.{Platform}
use federated_catalog_rs.Catalog.{Catalog, NodeId, node_id_eq}
use federated_catalog_rs.Store.{StoreResult, backend}
use federated_catalog_rs.Store.Contract.{IsCache}
use federated_catalog_rs.Store.Memory
use federated_catalog_rs.Store.Memory.{memory}
use federated_catalog_rs.Store.Memory.Laws.{memory_laws}
use federated_catalog_rs.Store.Oxigraph
use federated_catalog_rs.Store.Oxigraph.{Backend, oxigraph}
use federated_catalog_rs.Store.Oxigraph.Healthy.{IsHealthy}
use federated_catalog_rs.Store.Oxigraph.Laws.{oxigraph_laws, empty-IsSound, view-empty}
use federated_catalog_rs.Crawler.Config.{ParticipantEntry, ParticipantsConfig, ConfigSource}
use federated_catalog_rs.HttpApi.Auth.{DspAuthConfig}
use federated_catalog_rs.HttpApi.Auth.Laws.{IsConsistent}
use federated_catalog_rs.HttpApi.Handlers.{sample_catalog, seed_sample_catalog}
use federated_catalog_rs.HttpApi.Router.{
  AppState, app_state, with_dsp_auth, with_holder, Dispatcher, IsRouting, serve,
}
use federated_catalog_rs.Server.{
  Panic, Env, AccessReader, load_dsp_auth, load_crawler_config, Server, start, start_loaded, seeded,
  crawling, start_with,
}
use federated_catalog_rs.Server.Laws.{load_dsp_auth-IsConsistent}
use federated_catalog_rs.Server.Run.{Running, Reach, waiting}
use federated_catalog_rs.Server.Run.Invariant.{IsFetched}
use federated_catalog_rs.Server.Run.Safety.{
  catalog_request_of, KnownOutcome, Known-map, Reach-KnownOutcome,
}

either : {A B C : Type 0} → (A → B) → A ⊎ C → B ⊎ C
either f (inl a) = inl (f a)
either f (inr c) = inr c

module _ (P : Platform) where
  -- The application's state, as `main` puts it together
  abbrev pub app_of : Server P → AppState P
  app_of server =
      with_holder P server.holder (with_dsp_auth P server.dsp_auth (app_state P server.cache))

  -- The participants that the scheduler crawls; without a configuration there is no scheduler.
  abbrev pub participants_of : Server P → List ParticipantEntry
  participants_of server = elim server.crawler [ none ↦ [] | some config ↦ config.participants ]

  -- A cache that keeps its contract and has at most the sample catalog, and an authorization that
  -- does not make a handler panic
  pub record StartsWell (server : Server P) : Type 1 where
    pub laws : IsCache server.cache
    pub sound : laws.IsSound server.state
    pub consistent : IsConsistent P server.dsp_auth
    pub sample : (n : NodeId) (c : Catalog) → laws.view server.state n ≡ some c → c ≡ sample_catalog

  abbrev WellStarted : Result (Server P) Panic → Type 1
  WellStarted (ok server) = StartsWell server
  WellStarted (err e) = Unit

  -- The view of the cache with just the sample catalog
  sample_only :
      (b : Bool) (c : Catalog)
      → (if b then some sample_catalog else none) ≡ some c
      → c ≡ sample_catalog
  sample_only b c h = ground (arith, h)

  seeded-WellStarted :
      (auth : DspAuthConfig P)
      → IsConsistent P auth
      → WellStarted (seeded P auth (seed_sample_catalog memory Memory.new))
  unfolding seed_sample_catalog Memory.upsert Memory.Laws.view_of Memory.lookup
  seeded-WellStarted auth k = record {
    laws = memory_laws;
    sound =
        memory_laws.upsert_sound sample_catalog Memory.new
          (record { by_origin = tt; distinct = tt });
    consistent = k;
    sample = λ n c h. sample_only (node_id_eq sample_catalog.origin_node n) c (
        sym (
          memory_laws.view-upsert sample_catalog Memory.new n
            (record { by_origin = tt; distinct = tt }))
        ∙ h);
  }

  crawling-WellStarted :
      (b : Backend) (good : IsHealthy b) (auth : DspAuthConfig P) (config : ParticipantsConfig)
      (w : P.World) (r : StoreResult b.GraphStore)
      → IsConsistent P auth
      → r ≡ ok good.empty
      → WellStarted (crawling P b auth config r w).0
  crawling-WellStarted b good auth config w (err e) k h = tt
  crawling-WellStarted b good auth config w (ok store) k h =
      let is_empty = ok-injective h in
      record {
        laws = oxigraph_laws b good;
        sound = subst (oxigraph_laws b good).IsSound (sym is_empty) (empty-IsSound b good);
        consistent = k;
        sample = λ n c q. ground (
          arith,
          sym (view-empty b good n) ∙ ap (λ s. (oxigraph_laws b good).view s n) (sym is_empty) ∙ q,
        );
      }

  opened : {b : Backend} (good : IsHealthy b) → Oxigraph.in_memory b ≡ ok good.empty
  unfolding Oxigraph.in_memory
  opened good = ap (map_err backend) good.in_memory_empty

  start-WellStarted :
      (b : Backend) (good : IsHealthy b) (source : ConfigSource) (reader : AccessReader) (env : Env)
      (w : P.World)
      → WellStarted (start P b source reader env w).0
  unfolding start
  start-WellStarted b good source reader env w = with_auth (load_dsp_auth P reader env w) refl
    where
      with_config :
          (auth : DspAuthConfig P) (w1 : P.World) (r : Result (Option ParticipantsConfig) Panic)
          → IsConsistent P auth
          → WellStarted (start_loaded P b auth r w1).0
      with_config auth w1 (ok none) k = seeded-WellStarted auth k
      with_config auth w1 (ok (some config)) k =
          crawling-WellStarted b good auth config w1 (Oxigraph.in_memory b) k (opened good)
      with_config auth w1 (err e) k = tt

      with_auth :
          (a : Result (DspAuthConfig P) Panic × P.World)
          → load_dsp_auth P reader env w ≡ a
          → WellStarted (start_with P b source env a).0
      with_auth (err e, w1) q = tt
      with_auth (ok auth, w1) q =
          with_config auth w1 (load_crawler_config P source env)
            (load_dsp_auth-IsConsistent P reader env w auth w1 q)

  -- A server that has started serves its catalog soundly from then on, whatever the environment and
  -- the configuration said, and in whatever way crawls and requests are interleaved: a catalog
  -- request is refused with 401, or answered with 200 and exactly the datasets that its authorization
  -- lets the caller see, of the sample catalog or of catalogs that a crawl of a configured participant
  -- fetched; so it is never answered with 404 or 500, nor does the handler panic. The graph store and
  -- the matching of the routes behave as documented.
  pub start-KnownOutcome :
      (b : Backend) (good : IsHealthy b) (source : ConfigSource) (reader : AccessReader) (env : Env)
      (w : P.World) (server : Server P) (w1 : P.World) (dispatch : Dispatcher)
      (routing : IsRouting dispatch)
      (t : Running P dispatch (app_of server) (participants_of server)) (header : Option String)
      → start P b source reader env w ≡ (ok server, w1)
      → Reach P dispatch
          (app_of server)
          (participants_of server)
          (record { state = server.state; world = w1; scheduler = waiting })
          t
      → (consistent : IsConsistent P server.dsp_auth) × KnownOutcome P dispatch routing
          (app_of server)
          consistent
          (participants_of server)
          (λ c. (c ≡ sample_catalog) ⊎ IsFetched P server.holder (participants_of server) c)
          header
          t
          (serve P dispatch (app_of server) (catalog_request_of header) t.state t.world).0
  start-KnownOutcome b good source reader env w server w1 dispatch routing t header e reach =
      let well : StartsWell server =
        subst WellStarted (ap (λ (r : Result (Server P) Panic × P.World). r.0) e)
          (start-WellStarted b good source reader env w) in
      (
        well.consistent,
        Known-map P dispatch routing (app_of server) well.consistent (participants_of server)
            (λ c.
              (well.laws.view server.state c.origin_node ≡ some c)
              ⊎ IsFetched P server.holder (participants_of server) c)
            (λ c. (c ≡ sample_catalog) ⊎ IsFetched P server.holder (participants_of server) c)
            (λ c k. either (well.sample c.origin_node c) k) header t _
            (Reach-KnownOutcome P dispatch routing (app_of server) well.consistent
              (participants_of server) well.laws server.state w1 t header well.sound reach),
      )
