-- ===== src/Conformance/Crawls.antt =====
-- The unit tests of a crawl cycle, crates/crawler/src/lib.rs.
use federated_catalog_rs.Prelude.{
  ◌≡◌, refl, true, none, some, [], ◌∷◌, ok, err, length, eqb, ◌==◌, ◌>>=◌, ◌>>◌,
}
use federated_catalog_rs.Text.{strip_prefix}
use federated_catalog_rs.Sorting.{sort_by}
use federated_catalog_rs.Json.{obj}
use federated_catalog_rs.Platform.{Platform}
use federated_catalog_rs.Testbed.{testbed}
use federated_catalog_rs.Store.{all, paginate}
use federated_catalog_rs.Store.Memory
use federated_catalog_rs.Store.Memory.{memory}
use federated_catalog_rs.Crawler.Config.{ParticipantEntry}
use federated_catalog_rs.Crawler.Crawl.{authorization, crawl_one, crawl_once, crawl_all}
use federated_catalog_rs.Conformance.Asserts.{
  Test, assert, unwrap, expect_err, index, is_empty, contains,
}
use federated_catalog_rs.Conformance.Bodies.{participant}

-- Port 0 accepts no connection.
abbrev unreachable : Platform
unreachable = record (testbed "kid" (obj []) (obj [])) {
  send = λ r w. (err "connection refused", w);
}

unfoldable crawl_once_records_a_failure_for_an_unreachable_participant_and_continues :
    Test (Unit {0})
crawl_once_records_a_failure_for_an_unreachable_participant_and_continues = do
  let participants = participant "unreachable-participant" ∷ []
  let (summary, cache, world) = crawl_once unreachable memory none participants Memory.new 0
  assert (eqb summary.attempted 1)
  assert (eqb summary.succeeded 0)
  assert (eqb summary.failed 1)
  assert (eqb (length summary.failures) 1)
  failure ← index 0 summary.failures
  assert (failure.0 == "unreachable-participant")
  stored ← unwrap (memory.query all cache)
  assert (is_empty stored)

unfoldable crawl_one_requires_a_holder_identity_for_a_requires_dcp_participant : Test (Unit {0})
crawl_one_requires_a_holder_identity_for_a_requires_dcp_participant = do
  let gated : ParticipantEntry = record (participant "gated-participant") {
    requires_dcp = true;
    provider_did = some "did:web:localhost%3A19002:dsp";
  }
  e ← expect_err (crawl_one unreachable gated none 0).0
  assert (contains "no holder identity is configured" e)

crawl_tests_pass :
    (crawl_once_records_a_failure_for_an_unreachable_participant_and_continues ≡ ok tt)
    × (crawl_one_requires_a_holder_identity_for_a_requires_dcp_participant ≡ ok tt)
unfolding crawl_once_records_a_failure_for_an_unreachable_participant_and_continues
    crawl_one_requires_a_holder_identity_for_a_requires_dcp_participant crawl_once crawl_all
    crawl_one authorization contains strip_prefix Memory.query Memory.query_values sort_by paginate
crawl_tests_pass = (refl, refl)
