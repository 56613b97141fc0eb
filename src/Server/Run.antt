-- ===== src/Server/Run.antt =====
-- The running server: the scheduler of crates/crawler/src/lib.rs, whose crawls a request may come
-- between, and the requests that the router of crates/http-api/src/lib.rs answers. They share the
-- cache, which the crawler alone changes. A step is what happens between two awaits of the crawler
-- that matter for the cache: the fetching of a catalog, with its requests, is one step, and its
-- `upsert` is another, also where the Oxigraph cache writes twice to its store and takes no lock. The
-- answer to a request is one step, its authorization included. A request that no participant ever
-- answers, which would halt the cycle, is a step that is not made.
pub mod Invariant
pub mod Safety
pub mod Started
mod Tests
use federated_catalog_rs.Prelude.{String, List, [], ◌∷◌, Result}
use federated_catalog_rs.Platform.{Platform}
use federated_catalog_rs.Catalog.{Catalog}
use federated_catalog_rs.Crawler.Config.{ParticipantEntry}
use federated_catalog_rs.Crawler.Crawl.{CrawlSummary, no_summary, crawl_one, record_outcome}
use federated_catalog_rs.HttpApi.Router.{AppState, Dispatcher, HttpRequest, serve}

-- Where the scheduler is: waiting for a tick; at the head of the loop, with the participants that are
-- left; or with the outcome of a participant's crawl, before it is recorded
pub data Scheduler : Type 0 where
  waiting : Scheduler
  crawling : List ParticipantEntry → CrawlSummary → Scheduler
  received :
      ParticipantEntry → Result Catalog String → List ParticipantEntry → CrawlSummary → Scheduler

module _ (P : Platform) (dispatch : Dispatcher) (app : AppState P)
    (participants : List ParticipantEntry) where
  pub record Running : Type 0 where
    pub state : app.cache.State
    pub world : P.World
    pub scheduler : Scheduler

  -- A step of the scheduler within a cycle
  pub data CrawlStep : Running → Running → Type 0 where
    fetch :
        {c : app.cache.State} {w : P.World} {p : ParticipantEntry} {ps : List ParticipantEntry}
        {s : CrawlSummary}
        → CrawlStep
            (record { state = c; world = w; scheduler = crawling (p ∷ ps) s })
            (record {
              state = c;
              world = (crawl_one P p app.holder w).1;
              scheduler = received p (crawl_one P p app.holder w).0 ps s;
            })
    store :
        {c : app.cache.State} {w : P.World} {p : ParticipantEntry} {o : Result Catalog String}
        {ps : List ParticipantEntry} {s : CrawlSummary}
        → CrawlStep
            (record { state = c; world = w; scheduler = received p o ps s })
            (record {
              state = (record_outcome P app.cache app.holder p o s c).1;
              world = w;
              scheduler = crawling ps (record_outcome P app.cache app.holder p o s c).0;
            })
    finish :
        {c : app.cache.State} {w : P.World} {s : CrawlSummary}
        → CrawlStep
            (record { state = c; world = w; scheduler = crawling [] s })
            (record { state = c; world = w; scheduler = waiting })

  pub data Step : Running → Running → Type 0 where
    tick :
        {c : app.cache.State} {w : P.World}
        → Step
            (record { state = c; world = w; scheduler = waiting })
            (record { state = c; world = w; scheduler = crawling participants no_summary })
    crawl : {s t : Running} → CrawlStep s t → Step s t
    answer :
        {c : app.cache.State} {w : P.World} {k : Scheduler} (r : HttpRequest)
        → Step
            (record { state = c; world = w; scheduler = k })
            (record { state = c; world = (serve P dispatch app r c w).1; scheduler = k })

  pub data Reach (s : Running) : Running → Type 0 where
    here : Reach s s
    next : {t u : Running} → Reach s t → Step t u → Reach s u
