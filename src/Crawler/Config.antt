-- ===== src/Crawler/Config.antt =====
-- crates/crawler/src/config.rs: the participant registry. Reading a file and parsing TOML are
-- parameters; errors of theirs appear by what they render as.
pub mod Laws
use federated_catalog_rs.Prelude.{
  ℕ, String, Bool, true, false, Option, none, some, List, [], ◌∷◌, Result, ok, err, map_err, ◌>>=◌,
  ◌>>◌,
}

pub record ParticipantEntry : Type 0 where
  pub id : String
  pub name : String
  pub catalog_request_url : String
  pub requires_dcp : Bool
  pub provider_did : Option String

pub record HolderConfig : Type 0 where
  pub own_did_host : String
  pub insecure_http : Bool
  pub credential_jws : String
  pub required_scope : String

pub record ParticipantsConfig : Type 0 where
  pub interval_secs : ℕ
  pub participants : List ParticipantEntry
  pub holder : Option HolderConfig

pub data ConfigError : Type 0 where
  io parse_error : (path source : String) → ConfigError
  missing_provider_did missing_holder_section : (id : String) → ConfigError

-- What the body of the loop in `validate` does with one participant
unfoldable pub check_entry : Option HolderConfig → ParticipantEntry → Result (Unit {0}) ConfigError
check_entry holder p = elim p.requires_dcp [
  | false ↦ ok tt
  | true ↦ elim p.provider_did [
    | none ↦ err (missing_provider_did p.id)
    | some did ↦ elim holder [ none ↦ err (missing_holder_section p.id) | some h ↦ ok tt ]
  ]
]

unfoldable pub validate_entries :
    Option HolderConfig → List ParticipantEntry → Result (Unit {0}) ConfigError
validate_entries holder [] = ok tt
validate_entries holder (p ∷ ps) = check_entry holder p >> validate_entries holder ps

unfoldable pub validate : ParticipantsConfig → Result (Unit {0}) ConfigError
validate config = validate_entries config.holder config.participants

-- `toml::from_str` and `std::fs::read_to_string`
pub record ConfigSource : Type 0 where
  pub toml_from_str : String → Result ParticipantsConfig String
  pub read_to_string : String → Result String String

module _ (source : ConfigSource) where
  unfoldable pub parse : (raw path_for_errors : String) → Result ParticipantsConfig ConfigError
  parse raw path_for_errors = do
    config ← map_err (parse_error path_for_errors) (source.toml_from_str raw)
    validate config
    ok config

  unfoldable pub load : (path : String) → Result ParticipantsConfig ConfigError
  unfolding parse
  load path = do raw ← map_err (io path) (source.read_to_string path); parse raw path
