-- ===== src/Conformance/Configs.antt =====
-- The unit tests of the crawler's configuration, crates/crawler/src/config.rs. What the TOML parser
-- makes of a text is given.
use federated_catalog_rs.Prelude.{
  String, ◌≡◌, refl, Bool, false, true, not, none, some, [], ◌∷◌, ok, err, length, eqb, ◌==◌, ◌>>=◌,
  ◌>>◌,
}
use federated_catalog_rs.Store.Contract.{is_some}
use federated_catalog_rs.Crawler.Config.{
  ParticipantEntry, ParticipantsConfig, ConfigError, io, parse_error, missing_provider_did,
  missing_holder_section, ConfigSource, parse, load, validate, validate_entries, check_entry,
}
use federated_catalog_rs.Conformance.Asserts.{
  panicked, Test, assert, unwrap, expect_err, expect_some, index, is_text,
}

-- A TOML parser that reads every text as this configuration
abbrev reads_as : ParticipantsConfig → ConfigSource
reads_as config = record {
  toml_from_str = λ raw. ok config;
  read_to_string = λ path. err "No such file or directory";
}

abbrev gated_participant : ParticipantEntry
gated_participant = record {
  id = "gated-participant";
  name = "DCP-gated participant";
  catalog_request_url = "http://127.0.0.1:19002/dsp/catalog/request";
  requires_dcp = true;
  provider_did = some "did:web:localhost%3A19002:dsp";
}

abbrev valid_config : ParticipantsConfig
valid_config = record {
  interval_secs = 300;
  participants =
      record {
        id = "participant-a";
        name = "Participant A";
        catalog_request_url = "http://127.0.0.1:19001/dsp/catalog/request";
        requires_dcp = false;
        provider_did = none;
      }
      ∷ gated_participant
      ∷ [];
  holder = some (record {
    own_did_host = "localhost:19100";
    insecure_http = true;
    credential_jws = "header.payload.signature";
    required_scope = "org.eclipse.dspace.dcp.vc.type:FederatedCatalogAccessCredential:read";
  });
}

unfoldable parses_a_valid_config_file : Test (Unit {0})
parses_a_valid_config_file = do
  config ← unwrap (parse (reads_as valid_config) "VALID_CONFIG" "test.toml")
  assert (eqb config.interval_secs 300)
  assert (eqb (length config.participants) 2)
  a ← index 0 config.participants
  assert (a.id == "participant-a")
  assert (a.name == "Participant A")
  assert (a.catalog_request_url == "http://127.0.0.1:19001/dsp/catalog/request")
  assert (not a.requires_dcp)
  assert (not (is_some a.provider_did))
  gated ← index 1 config.participants
  assert gated.requires_dcp
  assert (is_text gated.provider_did "did:web:localhost%3A19002:dsp")
  holder ← expect_some config.holder
  assert (holder.own_did_host == "localhost:19100")
  assert holder.insecure_http
  assert (holder.credential_jws == "header.payload.signature")
  assert (
      holder.required_scope
      == "org.eclipse.dspace.dcp.vc.type:FederatedCatalogAccessCredential:read")

abbrev open_config : ParticipantsConfig
open_config = record {
  interval_secs = 60;
  participants =
      record {
        id = "open-participant";
        name = "Open participant";
        catalog_request_url = "http://127.0.0.1:19001/dsp/catalog/request";
        requires_dcp = false;
        provider_did = none;
      }
      ∷ [];
  holder = none;
}

unfoldable a_participant_without_dcp_needs_no_provider_did_or_holder_section : Test (Unit {0})
a_participant_without_dcp_needs_no_provider_did_or_holder_section = do
  config ← unwrap (parse (reads_as open_config) "raw" "test.toml")
  assert (not (is_some config.holder))

abbrev config_without_provider_did : ParticipantsConfig
config_without_provider_did = record {
  interval_secs = 60;
  participants = record gated_participant { provider_did = none } ∷ [];
  holder = some (record {
    own_did_host = "localhost:19100";
    insecure_http = false;
    credential_jws = "header.payload.signature";
    required_scope = "some-scope";
  });
}

abbrev names_missing_provider_did : ConfigError → String → Test (Unit {0})
names_missing_provider_did (missing_provider_did id) expected = assert (id == expected)
names_missing_provider_did e expected = err panicked

unfoldable rejects_requires_dcp_without_provider_did : Test (Unit {0})
rejects_requires_dcp_without_provider_did = do
  e ← expect_err (parse (reads_as config_without_provider_did) "raw" "test.toml")
  names_missing_provider_did e "gated-participant"

abbrev config_without_holder : ParticipantsConfig
config_without_holder = record {
  interval_secs = 60;
  participants = gated_participant ∷ [];
  holder = none;
}

abbrev names_missing_holder_section : ConfigError → String → Test (Unit {0})
names_missing_holder_section (missing_holder_section id) expected = assert (id == expected)
names_missing_holder_section e expected = err panicked

unfoldable rejects_requires_dcp_without_holder_section : Test (Unit {0})
rejects_requires_dcp_without_holder_section = do
  e ← expect_err (parse (reads_as config_without_holder) "raw" "test.toml")
  names_missing_holder_section e "gated-participant"

abbrev is_parse : ConfigError → Bool
is_parse (parse_error path source) = true
is_parse e = false

abbrev is_io : ConfigError → Bool
is_io (io path source) = true
is_io e = false

-- A TOML parser that refuses every text, and a file system without the file
abbrev refuses : ConfigSource
refuses = record {
  toml_from_str = λ raw. err "invalid array";
  read_to_string = λ path. err "No such file or directory";
}

unfoldable rejects_malformed_toml : Test (Unit {0})
rejects_malformed_toml = do
  e ← expect_err (parse refuses "not = [valid" "test.toml")
  assert (is_parse e)

unfoldable load_reports_a_clear_error_for_a_missing_file : Test (Unit {0})
load_reports_a_clear_error_for_a_missing_file = do
  e ← expect_err (load refuses "/nonexistent/path/to/crawler-config.toml")
  assert (is_io e)

config_tests_pass :
    (parses_a_valid_config_file ≡ ok tt)
    × (a_participant_without_dcp_needs_no_provider_did_or_holder_section ≡ ok tt)
    × (rejects_requires_dcp_without_provider_did ≡ ok tt)
    × (rejects_requires_dcp_without_holder_section ≡ ok tt)
    × (rejects_malformed_toml ≡ ok tt)
    × (load_reports_a_clear_error_for_a_missing_file ≡ ok tt)
unfolding parses_a_valid_config_file
    a_participant_without_dcp_needs_no_provider_did_or_holder_section
    rejects_requires_dcp_without_provider_did rejects_requires_dcp_without_holder_section
    rejects_malformed_toml load_reports_a_clear_error_for_a_missing_file load parse validate
    validate_entries check_entry
config_tests_pass = (refl, refl, refl, refl, refl, refl)
