-- ===== src/Lib.antt =====
-- A model of federated-catalog-rs, a federated catalog of dataspace participants, and what holds of it.
--
-- The program has three parts that share one cache. The crawler asks each configured participant for
-- its catalog and puts it into the cache. The HTTP API serves what the cache holds to other
-- participants, filtered by what a caller may see. The Decentralized Claims Protocol (DCP) serves
-- both: the crawler authenticates as a holder, and the API verifies the holders that call it.
--
-- Which file models what:
--   Catalog          crates/catalog-core/src/lib.rs: the domain types, field by field.
--   Store            crates/rdf-store/src/lib.rs: StoreError, CatalogQuery and the trait CatalogCache,
--                    a record of operations that take the cache's state and return the next; Store.Memory
--                    is InMemoryCatalogCache and Store.Oxigraph is OxigraphCatalogCache. Store.Contract
--                    is what a cache promises, stated of the view from a node to its catalog;
--                    Store.Abstract is a cache up to that view, a quotient; Store.Observed is what a
--                    client sees of a cache after changes; Store.Backends compares the two caches.
--   Sorting          `sort_by` of both caches: a stable sort by a text, as insertion.
--   Crawler.Config   crates/crawler/src/config.rs: ParticipantsConfig and its validation.
--   Crawler.Parse    crates/crawler/src/lib.rs: parse_catalog_response and what it calls; the loops over
--                    JSON arrays are structural recursion over Json.Value.
--   Crawler.Crawl    crates/crawler/src/lib.rs: crawl_one, crawl_once and the ticks of spawn_scheduler.
--   Did, Dcp         crates/dcp-core/src/lib.rs: tokens (Dcp.Jws), did:web (Dcp.DidWeb), documents and
--                    key pairs (Dcp.Documents), resolve_did (Dcp.Resolve), HolderIdentity (Dcp.Holder).
--   HttpApi          crates/http-api/src/dcp.rs (HttpApi.Verifier, with verify_dcp_bearer_token) and
--                    crates/http-api/src/lib.rs: the DSP documents and their serialization
--                    (HttpApi.Wire), authorize and visible_datasets (HttpApi.Auth), the handlers
--                    (HttpApi.Handlers), AppState and build_router (HttpApi.Router).
--                    HttpApi.Federation puts the API and the crawler together: what a crawler reads in
--                    the catalog that another server serves, along chains of servers, and how a server
--                    admits a crawler that authenticates (HttpApi.Federation.Handshake has both servers'
--                    sides of it).
--   Server           crates/http-api/src/main.rs: the environment, and the state the server starts in.
--                    Server.Run is the running server, a step relation in which the steps of
--                    spawn_scheduler and the requests that the router answers are interleaved.
--   Text, Json       the operations of Rust's `str` and of serde_json's `Value` that the program uses.
--   Platform, Task   what the program calls and does not implement, and calls that await: a call takes
--                    the state of the outside world and returns a result and the next state. `?` is the
--                    bind of Result or of Task.
--   Testbed          a small outside world, for the tests.
--   Conformance      the unit tests of the crates, run on the model: a test is the chain of what it
--                    asserts, and ends without a panic.
--
-- A client takes a cache by its interface: the crawler and the handlers are proved over any CatalogCache
-- that keeps Store.Contract.IsCache, and each of the two caches fills it.
--
-- No definition takes fuel: every loop of the program is over a list or a JSON value, and the scheduler,
-- which does not end, is given the number of its ticks. Numbers are unbounded but for the expiry of a
-- token, `now + 300` modulo 2 ^ 64. The counters of a crawl are bounded by the number of participants.
--
-- Parameters: the clock, random ids, HTTP, base64, the JSON text and P-256 (Platform), the graph store
-- and its libraries (Store.Oxigraph.Backend), the TOML parser and the file system (Crawler.Config). What
-- the theorems rely on of them is stated as laws: Dcp.Jws.Laws.IsFaithful and ReadsBack,
-- Dcp.Documents.Laws.HasP256Keys and ReadsDocuments, HttpApi.Router.IsRouting and
-- Store.Oxigraph.Healthy.IsHealthy.
--
-- Not modelled: axum's matching of a path to a route (a parameter, HttpApi.Router.Dispatcher) and its
-- reading of headers and queries, the JSON text of a response (a body is a JSON value), logging, the
-- socket, locks and the steps inside a call of a cache (each call is one step, also an upsert of the
-- Oxigraph cache, which writes twice), a request that is never answered, the files that a graph store keeps on disk,
-- the tests in crates/crawler/tests against other servers, and the fixtures in compliance.
pub mod Prelude
pub mod Text
pub mod Sorting
pub mod Json
pub mod Catalog
pub mod Store
pub mod Did
pub mod Task
pub mod Platform
pub mod Crawler
pub mod Dcp
pub mod HttpApi
pub mod Server
pub mod Testbed
pub mod Conformance
