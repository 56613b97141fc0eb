-- ===== src/Server/Run/Tests.antt =====
-- The theorems on the running server at concrete inputs.
use federated_catalog_rs.Prelude.{◌≡◌, ◌⊎◌, false, some, none, List, [], ◌∷◌}
use federated_catalog_rs.Store.Memory
use federated_catalog_rs.Store.Memory.{memory}
use federated_catalog_rs.Store.Memory.Laws.{memory_laws}
use federated_catalog_rs.Store.ListStore.{list_store, list_store_healthy}
use federated_catalog_rs.Crawler.Config.{ParticipantEntry}
use federated_catalog_rs.Crawler.Crawl.{no_summary}
use federated_catalog_rs.HttpApi.Auth.Laws.{IsConsistent}
use federated_catalog_rs.HttpApi.Handlers.{sample_catalog}
use federated_catalog_rs.HttpApi.Router.{AppState, app_state, serve}
use federated_catalog_rs.HttpApi.Router.Testbed.{dispatch, dispatch-IsRouting}
use federated_catalog_rs.Server.Tests.{world, env, reader, source, server, starts}
use federated_catalog_rs.Server.Run.{Running, crawling, tick, answer, here, next}
use federated_catalog_rs.Server.Run.Invariant.{IsFetched, IsValid, Reach-IsValid}
use federated_catalog_rs.Server.Run.Safety.{catalog_request_of, KnownOutcome}
use federated_catalog_rs.Server.Run.Started.{app_of, participants_of, start-KnownOutcome}

abbrev app : AppState world
app = app_state world memory

abbrev participants : List ParticipantEntry
participants =
    record {
      id = "p";
      name = "P";
      catalog_request_url = "http://p";
      requires_dcp = false;
      provider_did = none;
    }
    ∷ []

-- A catalog request is answered while the crawl of a participant is under way.
abbrev interrupted : Running world dispatch app participants
interrupted = record {
  state = Memory.new;
  world = (serve world dispatch app (catalog_request_of none) Memory.new 7).1;
  scheduler = crawling participants no_summary;
}

Reach-IsValid_example : IsValid world dispatch app participants memory_laws Memory.new interrupted
Reach-IsValid_example =
    Reach-IsValid world dispatch app participants memory_laws Memory.new 7 interrupted
      (record { by_origin = tt; distinct = tt })
      (next (next here tick) (answer (catalog_request_of none)))

-- The started server, at the start of its first cycle
abbrev first_cycle : Running world dispatch (app_of world server) (participants_of world server)
first_cycle = record {
  state = server.state;
  world = 7;
  scheduler = crawling (participants_of world server) no_summary;
}

start-KnownOutcome_example :
    (consistent : IsConsistent world server.dsp_auth) × KnownOutcome world dispatch
      dispatch-IsRouting
      (app_of world server)
      consistent
      (participants_of world server)
      (λ c. (c ≡ sample_catalog) ⊎ IsFetched world server.holder (participants_of world server) c)
      (some "Bearer token")
      first_cycle
      (serve world dispatch
        (app_of world server)
        (catalog_request_of (some "Bearer token"))
        first_cycle.state
        first_cycle.world).0
start-KnownOutcome_example =
    start-KnownOutcome world list_store list_store_healthy source reader env 7 server 7 dispatch
      dispatch-IsRouting first_cycle (some "Bearer token") starts (next here tick)
