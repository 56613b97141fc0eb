-- ===== src/HttpApi/Federation/Chain.antt =====
-- Catalogs that are federated again: a chain of servers, each of which crawls the one before
-- (crates/crawler/src/lib.rs) and serves what it has fetched (crates/http-api/src/lib.rs).
use mathlib.Core.List.{append-nil}
use federated_catalog_rs.Prelude.{
  String, ◌≡◌, refl, sym, ap, ◌∙◌, Option, none, some, List, [], ◌∷◌, map, filter, ok, ok-injective,
  arith, Result,
}
use federated_catalog_rs.Platform.{Platform}
use federated_catalog_rs.Catalog.{Catalog, Dataset}
use federated_catalog_rs.Crawler.Config.{ParticipantEntry}
use federated_catalog_rs.Crawler.Crawl.{authorization, catalog_request, crawl_one}
use federated_catalog_rs.Dcp.Holder.{HolderIdentity}
use federated_catalog_rs.HttpApi.Wire.Encoding.{catalog_value}
use federated_catalog_rs.HttpApi.Auth.{visible_datasets, contains}
use federated_catalog_rs.HttpApi.Handlers.{catalog_body, flatten_catalogs}
use federated_catalog_rs.HttpApi.Federation.Reading.{exported}
use federated_catalog_rs.HttpApi.Federation.{crawl_one-catalog_body}

-- A crawl that fetches `fetched` from a server that holds the catalogs `cs` and lets the crawler see
-- what `allowed` says. Each of the two has a platform of its own.
pub record Crawled (allowed : Option (List String)) (cs : List Catalog) (fetched : Catalog)
    : Type 1 where
  pub P : Platform
  pub Remote : Platform
  pub participant : ParticipantEntry
  pub holder : Option (HolderIdentity P)
  pub remote : Remote.World
  pub auth : String
  pub text : Result String String
  pub w : P.World
  pub w1 : P.World
  pub w2 : P.World
  pub authorized : authorization P participant holder w ≡ (ok auth, w1)
  pub answered : P.send (catalog_request P participant auth) w1 ≡ (
    ok (record {
      status = 200;
      json = ok (catalog_value (catalog_body Remote allowed cs remote).0);
      text = text;
    }),
    w2,
  )
  pub succeeded : (crawl_one P participant holder w).0 ≡ ok fetched

-- The catalogs that the last server of a chain holds, and what each server on the way lets the next
-- one see, the last first
pub data Chain (source : List Catalog) : List (Option (List String)) → List Catalog → Type 1 where
  first_server : Chain source [] source
  next_server :
      {seen : List (Option (List String))} {cs : List Catalog} {fetched : Catalog}
      → (allowed : Option (List String)) → Crawled allowed cs fetched
      → Chain source seen cs
      → Chain source (allowed ∷ seen) (fetched ∷ [])

-- What every server on the way lets through
abbrev pub through : List (Option (List String)) → List Dataset → List Dataset
through [] datasets = datasets
through (allowed ∷ seen) datasets = visible_datasets allowed (through seen datasets)

visible-exported :
    (allowed : Option (List String)) (ds : List Dataset)
    → visible_datasets allowed (map exported ds) ≡ map exported (visible_datasets allowed ds)
unfolding visible_datasets
visible-exported none ds = refl
visible-exported (some ids) ds = filtered ds
  where
    filtered :
        (ds : List Dataset)
        → filter (λ d. contains ids d.id) (map exported ds)
          ≡ map exported (filter (λ d. contains ids d.id) ds)
    filtered [] = refl
    filtered (d ∷ ds) = ground (arith, filtered ds)

exported-exported : (ds : List Dataset) → map exported (map exported ds) ≡ map exported ds
exported-exported [] = refl
exported-exported (d ∷ ds) = ap (◌∷◌ (exported d)) (exported-exported ds)

Crawled-datasets :
    {allowed : Option (List String)} {cs : List Catalog} {fetched : Catalog}
    → Crawled allowed cs fetched
    → fetched.datasets ≡ map exported (visible_datasets allowed (flatten_catalogs cs).0)
Crawled-datasets {allowed} {cs} r =
    let (c, e, same, _) =
      crawl_one-catalog_body r.P r.Remote r.participant r.holder allowed cs r.remote r.auth r.text
        r.w r.w1 r.w2 r.authorized r.answered in
    ap (λ (c : Catalog). c.datasets) (ok-injective (sym r.succeeded ∙ e)) ∙ same

Chain-shown :
    (source : List Catalog) {seen : List (Option (List String))} {cs : List Catalog}
    → Chain source seen cs
    → map exported (flatten_catalogs cs).0 ≡ map exported (through seen (flatten_catalogs source).0)
unfolding flatten_catalogs
Chain-shown source first_server = refl
Chain-shown source (next_server {seen} {cs} {fetched} allowed r chain) =
    ap (map exported) (append-nil fetched.datasets ∙ Crawled-datasets r)
    ∙ exported-exported (visible_datasets allowed (flatten_catalogs cs).0)
    ∙ sym (visible-exported allowed (flatten_catalogs cs).0)
    ∙ ap (visible_datasets allowed) (Chain-shown source chain)
    ∙ visible-exported allowed (through seen (flatten_catalogs source).0)

-- A federation of federations, of any depth, neither loses nor invents a dataset: what a crawl fetches
-- at the end of a chain of servers, each of which holds what it has fetched from the one before, is
-- the datasets of the first server, in order and without their properties, less those that a server
-- on the way hides from the next one.
pub Chain-datasets :
    (source : List Catalog) (seen : List (Option (List String))) (cs : List Catalog)
    (allowed : Option (List String)) (fetched : Catalog)
    → Chain source seen cs
    → Crawled allowed cs fetched
    → fetched.datasets ≡ map exported (through (allowed ∷ seen) (flatten_catalogs source).0)
Chain-datasets source seen cs allowed fetched chain r =
    Crawled-datasets r
    ∙ sym (visible-exported allowed (flatten_catalogs cs).0)
    ∙ ap (visible_datasets allowed) (Chain-shown source chain)
    ∙ visible-exported allowed (through seen (flatten_catalogs source).0)
