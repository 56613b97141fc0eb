-- ===== src/Crawler/Crawl/Tally.antt =====
-- The counts that a crawl cycle reports.
use federated_catalog_rs.Prelude.{
  ℕ, zero, suc, ◌+◌, String, ◌≡◌, refl, subst, Option, List, [], ◌∷◌, Result, ok, err, All, length,
  length-append, arith,
}
use federated_catalog_rs.Platform.{Platform}
use federated_catalog_rs.Catalog.{Catalog}
use federated_catalog_rs.Store.{CatalogCache, StoreResult}
use federated_catalog_rs.Dcp.Holder.{HolderIdentity}
use federated_catalog_rs.Crawler.Config.{ParticipantEntry}
use federated_catalog_rs.Crawler.Crawl.{
  CrawlSummary, no_summary, count_success, count_failure, crawl_one, record_upsert, record_outcome,
  crawl_all, crawl_once, scheduler_ticks,
}

-- `n` participants were tried; each succeeded or failed, and the failures are listed.
pub record IsTally (n : ℕ) (s : CrawlSummary) : Type 0 where
  pub attempted_all : s.attempted ≡ n
  pub balanced : s.succeeded + s.failed ≡ n
  pub listed : length s.failures ≡ s.failed

IsTally-count_success : (n : ℕ) (s : CrawlSummary) → IsTally n s → IsTally (suc n) (count_success s)
IsTally-count_success n s h = record {
  attempted_all = omega (arith, h.attempted_all);
  balanced = omega (arith, h.balanced);
  listed = h.listed;
}

IsTally-count_failure :
    (n : ℕ) (id message : String) (s : CrawlSummary)
    → IsTally n s
    → IsTally (suc n) (count_failure id message s)
IsTally-count_failure n id message s h = record {
  attempted_all = omega (arith, h.attempted_all);
  balanced = omega (arith, h.balanced);
  listed = omega (arith, length-append s.failures ((id, message) ∷ []), h.listed);
}

module _ (P : Platform) (cache : CatalogCache) (holder : Option (HolderIdentity P)) where
  IsTally-record_upsert :
      (n : ℕ) (id : String) (r : StoreResult (Unit {0})) (s : CrawlSummary)
      → IsTally n s
      → IsTally (suc n) (record_upsert P cache holder id r s)
  IsTally-record_upsert n id (ok u) s h = IsTally-count_success n s h
  IsTally-record_upsert n id (err e) s h = IsTally-count_failure n id _ s h

  pub IsTally-record_outcome :
      (n : ℕ) (p : ParticipantEntry) (r : Result Catalog String) (s : CrawlSummary)
      (state : cache.State)
      → IsTally n s
      → IsTally (suc n) (record_outcome P cache holder p r s state).0
  IsTally-record_outcome n p (ok c) s state h =
      IsTally-record_upsert n p.id (cache.upsert c state).0 s h
  IsTally-record_outcome n p (err e) s state h = IsTally-count_failure n p.id e s h

  IsTally-crawl_all :
      (n : ℕ) (ps : List ParticipantEntry) (s : CrawlSummary) (state : cache.State) (w : P.World)
      → IsTally n s
      → IsTally (length ps + n) (crawl_all P cache holder ps s state w).0
  unfolding crawl_all
  IsTally-crawl_all n [] s state w h = subst (λ k. IsTally k s) (omega arith) h
  IsTally-crawl_all n (p ∷ ps) s state w h =
      let (r, w1) = crawl_one P p holder w in
      let (s1, state1) = record_outcome P cache holder p r s state in
      subst (λ k. IsTally k (crawl_all P cache holder ps s1 state1 w1).0) (omega arith)
        (IsTally-crawl_all (suc n) ps s1 state1 w1 (IsTally-record_outcome n p r s state h))

  -- A cycle tries every participant, whatever fails before it: each counts as a success or as a
  -- failure, and the failures are the ones listed.
  pub crawl_once-IsTally :
      (ps : List ParticipantEntry) (state : cache.State) (w : P.World)
      → IsTally (length ps) (crawl_once P cache holder ps state w).0
  unfolding crawl_once
  crawl_once-IsTally ps state w =
      subst (λ k. IsTally k (crawl_all P cache holder ps no_summary state w).0) (omega arith)
        (IsTally-crawl_all 0 ps no_summary state w
          (record { attempted_all = refl; balanced = refl; listed = refl }))

  -- In each cycle of the scheduler every participant is tried: each counts as a success or as a
  -- failure, and the failures are the ones listed.
  pub scheduler_ticks-IsTally :
      (n : ℕ) (ps : List ParticipantEntry) (state : cache.State) (w : P.World)
      → All (IsTally (length ps)) (scheduler_ticks P cache holder n ps state w).0
  unfolding scheduler_ticks
  scheduler_ticks-IsTally zero ps state w = tt
  scheduler_ticks-IsTally (suc n) ps state w =
      let (summary, state1, w1) = crawl_once P cache holder ps state w in
      (crawl_once-IsTally ps state w, scheduler_ticks-IsTally n ps state1 w1)
