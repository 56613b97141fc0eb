-- ===== src/Crawler/Crawl/Laws.antt =====
-- What a crawl cycle leaves in the cache, which failures it reports, and that it can authenticate.
use federated_catalog_rs.Prelude.{
  String, ◌≡◌, refl, ◌≢◌, ap, ◌∙◌, sym, inl, inr, true, not, Option, none, some, List, [], ◌∷◌,
  ◌++◌, Result, ok, err, All, map_err, if◌then◌else◌, arith, Bool-cases,
}
use mathlib.Core.List.{append_assoc, append-nil}
use federated_catalog_rs.Text.{◌+++◌}
use federated_catalog_rs.Json.{or_else}
use federated_catalog_rs.Task.{lift_bind-eq-ok, >>=-eq-ok, guard-eq-ok, always}
use federated_catalog_rs.Platform.{Platform, is_success}
use federated_catalog_rs.Catalog.{Catalog, NodeId, node_id, node_id_eq}
use federated_catalog_rs.Store.{CatalogCache}
use federated_catalog_rs.Store.Contract.{IsCache, is_some}
use federated_catalog_rs.Dcp.Resolve.{send_or}
use federated_catalog_rs.Dcp.Holder.{HolderIdentity, mint_self_issued_token}
use federated_catalog_rs.Crawler.Config.{ParticipantEntry, ParticipantsConfig, validate}
use federated_catalog_rs.Crawler.Config.Laws.{CanAuthenticate, validate_iff}
use federated_catalog_rs.Crawler.Parse.Identity.{parsed_identity}
use federated_catalog_rs.Crawler.Crawl.{
  CrawlSummary, no_summary, authorization, parse_response, crawl_one, record_outcome, crawl_all,
  crawl_once,
}

-- A crawled catalog is filed under the participant that was asked.
pub crawl_one-origin :
    (P : Platform) (p : ParticipantEntry) (holder : Option (HolderIdentity P)) (w : P.World)
    {c : Catalog} {w' : P.World}
    → crawl_one P p holder w ≡ (ok c, w')
    → c.origin_node ≡ node_id p.id
unfolding crawl_one parse_response
crawl_one-origin P p holder w e =
    let (auth, w1, e0, e1) = >>=-eq-ok (authorization P p holder) _ w e in
    let (response, w2, e2, e3) = >>=-eq-ok (send_or P _ _) _ w1 e1 in
    let (success, e4) = guard-eq-ok (not (is_success response.status)) _ _ w2 e3 in
    let (body, e5, e6) =
      lift_bind-eq-ok
        (map_err (λ x. "malformed JSON response from " +++ p.catalog_request_url +++ ": " +++ x)
          response.json)
        (λ body. always (parse_response P body p)) w2 e4 in
    ground (arith, e6, parsed_identity body p (P.new_uuid w2).0)

-- The crawls of a cycle, one after the other, whatever the cache does with them
unfoldable pub crawls :
    (P : Platform)
    → Option (HolderIdentity P)
    → List ParticipantEntry
    → P.World
    → List (ParticipantEntry × Result Catalog String)
crawls P holder [] w = []
crawls P holder (p ∷ ps) w = let (r, w1) = crawl_one P p holder w in (p, r) ∷ crawls P holder ps w1

abbrev pub fetched : NodeId → ParticipantEntry → Result Catalog String → Option Catalog
fetched n p (ok c) = if node_id_eq (node_id p.id) n then some c else none
fetched n p (err e) = none

-- The last catalog that was fetched for a node
abbrev pub latest : NodeId → List (ParticipantEntry × Result Catalog String) → Option Catalog
latest n [] = none
latest n ((p, r) ∷ rs) = or_else (latest n rs) (fetched n p r)

-- The participants whose crawl failed, with the errors
abbrev pub failing : List (ParticipantEntry × Result Catalog String) → List (String × String)
failing [] = []
failing ((p, ok c) ∷ rs) = failing rs
failing ((p, err e) ∷ rs) = (p.id, e) ∷ failing rs

failing-cons :
    (p : ParticipantEntry) (r : Result Catalog String)
    (rs : List (ParticipantEntry × Result Catalog String))
    → failing ((p, r) ∷ []) ++ failing rs ≡ failing ((p, r) ∷ rs)
failing-cons p (ok c) rs = refl
failing-cons p (err e) rs = refl

or_else_assoc : (a b c : Option Catalog) → or_else (or_else a b) c ≡ or_else a (or_else b c)
or_else_assoc none b c = refl
or_else_assoc (some x) b c = refl

module _ (P : Platform) (cache : CatalogCache) (laws : IsCache cache)
    (holder : Option (HolderIdentity P)) where
  pub IsSound-record_outcome :
      (p : ParticipantEntry) (r : Result Catalog String) (s : CrawlSummary) (state : cache.State)
      → laws.IsSound state
      → laws.IsSound (record_outcome P cache holder p r s state).1
  IsSound-record_outcome p (ok c) s state h = laws.upsert_sound c state h
  IsSound-record_outcome p (err e) s state h = h

  pub view-record_outcome :
      (p : ParticipantEntry) (r : Result Catalog String) (s : CrawlSummary) (state : cache.State)
      (n : NodeId)
      → laws.IsSound state
      → ((c : Catalog) → r ≡ ok c → c.origin_node ≡ node_id p.id)
      → laws.view (record_outcome P cache holder p r s state).1 n
        ≡ or_else (fetched n p r) (laws.view state n)
  view-record_outcome p (ok c) s state n h origin =
      rw (laws.view-upsert c state n h, origin c refl) (ground arith)
  view-record_outcome p (err e) s state n h origin = refl

  IsSound-crawl_all :
      (ps : List ParticipantEntry) (s : CrawlSummary) (state : cache.State) (w : P.World)
      → laws.IsSound state
      → laws.IsSound (crawl_all P cache holder ps s state w).1
  unfolding crawl_all
  IsSound-crawl_all [] s state w h = h
  IsSound-crawl_all (p ∷ ps) s state w h =
      let (r, w1) = crawl_one P p holder w in
      let (s1, state1) = record_outcome P cache holder p r s state in
      IsSound-crawl_all ps s1 state1 w1 (IsSound-record_outcome p r s state h)

  pub IsSound-crawl_once :
      (ps : List ParticipantEntry) (state : cache.State) (w : P.World)
      → laws.IsSound state
      → laws.IsSound (crawl_once P cache holder ps state w).1
  unfolding crawl_once
  IsSound-crawl_once ps state w h = IsSound-crawl_all ps no_summary state w h

  view-crawl_all :
      (ps : List ParticipantEntry) (s : CrawlSummary) (state : cache.State) (w : P.World)
      (n : NodeId)
      → laws.IsSound state
      → laws.view (crawl_all P cache holder ps s state w).1 n
        ≡ or_else (latest n (crawls P holder ps w)) (laws.view state n)
  unfolding crawl_all crawls
  view-crawl_all [] s state w n h = refl
  view-crawl_all (p ∷ ps) s state w n h =
      let (r, w1) = crawl_one P p holder w in
      let (s1, state1) = record_outcome P cache holder p r s state in
      view-crawl_all ps s1 state1 w1 n (IsSound-record_outcome p r s state h)
      ∙ ap (or_else (latest n (crawls P holder ps w1))) (
          view-record_outcome p r s state n h
            (λ c e. crawl_one-origin P p holder w (ap (λ (o : Result Catalog String). (o, w1)) e)))
      ∙ sym (or_else_assoc (latest n (crawls P holder ps w1)) (fetched n p r) (laws.view state n))

  -- After a cycle over a sound cache, a node has the last catalog that was fetched for it in the
  -- cycle, and what it had before if none was.
  pub view-crawl_once :
      (ps : List ParticipantEntry) (state : cache.State) (w : P.World) (n : NodeId)
      → laws.IsSound state
      → laws.view (crawl_once P cache holder ps state w).1 n
        ≡ or_else (latest n (crawls P holder ps w)) (laws.view state n)
  unfolding crawl_once
  view-crawl_once ps state w n h = view-crawl_all ps no_summary state w n h

  failures-record_outcome :
      (p : ParticipantEntry) (r : Result Catalog String) (s : CrawlSummary) (state : cache.State)
      → laws.IsSound state
      → (record_outcome P cache holder p r s state).0.failures ≡ s.failures ++ failing ((p, r) ∷ [])
  failures-record_outcome p (ok c) s state h =
      rw (laws.upsert_result c state h) (sym (append-nil s.failures))
  failures-record_outcome p (err e) s state h = refl

  failures-crawl_all :
      (ps : List ParticipantEntry) (s : CrawlSummary) (state : cache.State) (w : P.World)
      → laws.IsSound state
      → (crawl_all P cache holder ps s state w).0.failures
        ≡ s.failures ++ failing (crawls P holder ps w)
  unfolding crawl_all crawls
  failures-crawl_all [] s state w h = sym (append-nil s.failures)
  failures-crawl_all (p ∷ ps) s state w h =
      let (r, w1) = crawl_one P p holder w in
      let (s1, state1) = record_outcome P cache holder p r s state in
      failures-crawl_all ps s1 state1 w1 (IsSound-record_outcome p r s state h)
      ∙ ap (λ fs. fs ++ failing (crawls P holder ps w1)) (failures-record_outcome p r s state h)
      ∙ append_assoc s.failures (failing ((p, r) ∷ [])) (failing (crawls P holder ps w1))
      ∙ ap (◌++◌ s.failures) (failing-cons p r (crawls P holder ps w1))

  -- A cycle over a sound cache reports exactly the participants whose crawl failed, in order.
  pub failures-crawl_once :
      (ps : List ParticipantEntry) (state : cache.State) (w : P.World)
      → laws.IsSound state
      → (crawl_once P cache holder ps state w).0.failures ≡ failing (crawls P holder ps w)
  unfolding crawl_once
  failures-crawl_once ps state w h = failures-crawl_all ps no_summary state w h

some_of : {A : Type 0} (o : Option A) → is_some o ≡ true → (a : A) × (o ≡ some a)
some_of none h = ground arith
some_of (some a) h = (a, refl)

is_some-true : {A : Type 0} (o : Option A) → o ≢ none → is_some o ≡ true
is_some-true none h = ground arith
is_some-true (some a) h = refl

module _ (P : Platform) where
  -- With a validated configuration, and a holder identity exactly if it has a holder section, the
  -- request to each of its participants gets its `Authorization` header.
  pub authorization-validate :
      (config : ParticipantsConfig) (holder : Option (HolderIdentity P)) (w : P.World)
      → validate config ≡ ok tt
      → is_some holder ≡ is_some config.holder
      → All (λ p. (auth : String) × ((authorization P p holder w).0 ≡ ok auth)) config.participants
  unfolding authorization
  authorization-validate config holder w h e =
      authorized config.participants ((validate_iff config).0 h)
    where
      authorized :
          (ps : List ParticipantEntry)
          → All (CanAuthenticate config.holder) ps
          → All (λ p. (auth : String) × ((authorization P p holder w).0 ≡ ok auth)) ps
      authorized [] h = tt
      authorized (p ∷ ps) (h, hs) = (
        elim (Bool-cases p.requires_dcp) [
          | inl r ↦
              let (identity, e1) = some_of holder (e ∙ is_some-true config.holder (h r).1) in
              let (did, e2) = some_of p.provider_did (is_some-true p.provider_did (h r).0) in
              rw (r, e1, e2) ("Bearer " +++ (mint_self_issued_token P identity did w).0, refl)
          | inr r ↦ rw r ("federated-catalog-rs-crawler-anonymous", refl)
        ],
        authorized ps hs,
      )
