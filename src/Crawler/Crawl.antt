-- ===== src/Crawler/Crawl.antt =====
-- crates/crawler/src/lib.rs: one participant's crawl, one cycle over all of them, and the schedule.
pub mod Tally
pub mod Laws
use federated_catalog_rs.Prelude.{
  ℕ, zero, suc, ◌+◌, max, String, Bool, not, Option, none, some, List, [], ◌∷◌, ◌++◌, Result, ok,
  err, ok_or, if◌then◌else◌, map_err,
}
use federated_catalog_rs.Text.{◌+++◌}
use federated_catalog_rs.Json.{Value, get_str, obj, arr, string}
use federated_catalog_rs.Task.{Task, ◌>>=◌, ◌>>◌, lift, pure, always}
use federated_catalog_rs.Platform.{Platform, Request, Response, http_post, is_success}
use federated_catalog_rs.Catalog.{Catalog}
use federated_catalog_rs.Store.{StoreResult, store_error_to_string, CatalogCache}
use federated_catalog_rs.Dcp.Resolve.{send_or}
use federated_catalog_rs.Dcp.Holder.{HolderIdentity, mint_self_issued_token}
use federated_catalog_rs.Crawler.Config.{ParticipantEntry, ParticipantsConfig}
use federated_catalog_rs.Crawler.Parse.{parse_catalog_response}

abbrev dsp_context_url : String
dsp_context_url = "https://w3id.org/dspace/2025/1/context.jsonld"

abbrev open_participant_placeholder_auth : String
open_participant_placeholder_auth = "federated-catalog-rs-crawler-anonymous"

abbrev request_body : Value
request_body = obj (
    ("@context", arr (string dsp_context_url ∷ []))
    ∷ ("@type", string "CatalogRequestMessage")
    ∷ [])

-- `failures`: a participant's id and an error message, in participant order
pub record CrawlSummary : Type 0 where
  pub attempted : ℕ
  pub succeeded : ℕ
  pub failed : ℕ
  pub failures : List (String × String)

-- `CrawlSummary::default`
abbrev pub no_summary : CrawlSummary
no_summary = record { attempted = 0; succeeded = 0; failed = 0; failures = [] }

-- The effect on the summary of one participant that succeeded, and of one that failed
abbrev pub count_success : CrawlSummary → CrawlSummary
count_success s = record s { attempted = s.attempted + 1; succeeded = s.succeeded + 1 }

abbrev pub count_failure : String → String → CrawlSummary → CrawlSummary
count_failure id message s = record s {
  attempted = s.attempted + 1;
  failed = s.failed + 1;
  failures = s.failures ++ (id, message) ∷ [];
}

module _ (P : Platform) where
  open P use {World, new_uuid, send, status_to_string}

  -- The value of the `Authorization` header of a participant's request
  unfoldable pub authorization :
      ParticipantEntry → Option (HolderIdentity P) → Task World String String
  authorization p holder = if not p.requires_dcp then pure open_participant_placeholder_auth else do
    identity ← lift (
        ok_or holder
          ("participant '" +++ p.id +++ "' requires_dcp but no holder identity is configured"))
    provider_did ← lift (
        ok_or p.provider_did
          ("participant '" +++ p.id +++ "' requires_dcp but has no provider_did"))
    token ← always (mint_self_issued_token P identity provider_did)
    pure ("Bearer " +++ token)

  abbrev pub catalog_request : ParticipantEntry → String → Request
  catalog_request p auth = record {
    method = http_post;
    url = p.catalog_request_url;
    authorization = some auth;
    body = some request_body;
  }

  -- `parse_catalog_response`, which draws a random id for a response that has none
  unfoldable pub parse_response : Value → ParticipantEntry → World → Catalog × World
  parse_response body p world =
      let (uuid, world') = new_uuid world in
      (
        parse_catalog_response body p uuid,
        elim (get_str "@id" body) [ some id ↦ world | none ↦ world' ],
      )

  unfoldable pub crawl_one :
      ParticipantEntry → Option (HolderIdentity P) → Task World Catalog String
  crawl_one p holder = do
    auth ← authorization p holder
    response ←
        send_or P (λ e. "request to " +++ p.catalog_request_url +++ " failed: " +++ e)
          (catalog_request p auth)
    if not (is_success response.status)
        then lift
            (err (p.catalog_request_url +++ " returned HTTP " +++ status_to_string response.status))
        else do
          body ← lift (
              map_err
                (λ e. "malformed JSON response from " +++ p.catalog_request_url +++ ": " +++ e)
                response.json)
          always (parse_response body p)

  module _ (cache : CatalogCache) (holder : Option (HolderIdentity P)) where
    abbrev record_upsert : String → StoreResult (Unit {0}) → CrawlSummary → CrawlSummary
    record_upsert id (ok u) s = count_success s
    record_upsert id (err e) s =
        count_failure id ("failed to cache crawl result: " +++ store_error_to_string e) s

    -- What the body of the loop does with the outcome of a participant's crawl
    abbrev pub record_outcome :
        ParticipantEntry
        → Result Catalog String
        → CrawlSummary
        → cache.State
        → CrawlSummary × cache.State
    record_outcome p (ok c) s state =
        let (outcome, state') = cache.upsert c state in (record_upsert p.id outcome s, state')
    record_outcome p (err e) s state = (count_failure p.id e s, state)

    -- The loop over the participants
    unfoldable pub crawl_all :
        List ParticipantEntry
        → CrawlSummary
        → cache.State
        → World
        → CrawlSummary × cache.State × World
    crawl_all [] s state w = (s, state, w)
    crawl_all (p ∷ ps) s state w =
        let (outcome, w1) = crawl_one p holder w in
        let (s1, state1) = record_outcome p outcome s state in crawl_all ps s1 state1 w1

    unfoldable pub crawl_once :
        List ParticipantEntry → cache.State → World → CrawlSummary × cache.State × World
    unfolding crawl_all
    crawl_once participants state w = crawl_all participants no_summary state w

    -- The first `n` ticks of the scheduler: the summaries that it logs, and the state it leaves
    unfoldable pub scheduler_ticks :
        ℕ → List ParticipantEntry → cache.State → World → List CrawlSummary × cache.State × World
    unfolding crawl_once
    scheduler_ticks zero ps state w = ([], state, w)
    scheduler_ticks (suc n) ps state w =
        let (summary, state1, w1) = crawl_once ps state w in
        let (summaries, state2, w2) = scheduler_ticks n ps state1 w1 in
        (summary ∷ summaries, state2, w2)

-- The seconds between two ticks
unfoldable pub tick_interval : ParticipantsConfig → ℕ
tick_interval config = max config.interval_secs 1
