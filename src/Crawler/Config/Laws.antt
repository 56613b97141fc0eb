-- ===== src/Crawler/Config/Laws.antt =====
-- What a validated configuration guarantees, and which error a bad one gives.
use federated_catalog_rs.Prelude.{
  String, ◌≡◌, refl, ◌≢◌, ◌⊎◌, ◌↔◌, true, Option, none, List, [], ◌∷◌, ◌++◌, Result, ok, err, ◌>>=◌,
  ◌>>◌, >>=-eq-ok, map_err, All, arith, ap, ◌∙◌,
}
use federated_catalog_rs.Crawler.Config.{
  ParticipantEntry, HolderConfig, ParticipantsConfig, ConfigError, missing_provider_did,
  missing_holder_section, io, parse_error, check_entry, validate_entries, validate, ConfigSource,
  parse, load,
}

-- A participant behind DCP has a DID, and the file has a holder to authenticate as.
abbrev pub CanAuthenticate : Option HolderConfig → ParticipantEntry → Type 0
CanAuthenticate holder p = p.requires_dcp ≡ true → (p.provider_did ≢ none) × (holder ≢ none)

check_entry_sound :
    (holder : Option HolderConfig) (p : ParticipantEntry)
    → check_entry holder p ≡ ok tt
    → CanAuthenticate holder p
unfolding check_entry
check_entry_sound holder p h r = ground arith

check_entry_complete :
    (holder : Option HolderConfig) (p : ParticipantEntry)
    → CanAuthenticate holder p
    → check_entry holder p ≡ ok tt
unfolding check_entry
check_entry_complete holder p h = ground arith

validate_entries_iff :
    (holder : Option HolderConfig) (ps : List ParticipantEntry)
    → (validate_entries holder ps ≡ ok tt) ↔ All (CanAuthenticate holder) ps
unfolding validate_entries
validate_entries_iff holder [] = ((λ h. tt), (λ h. refl))
validate_entries_iff holder (p ∷ ps) = (
  (λ h.
      let (u, first, rest) = >>=-eq-ok (check_entry holder p) _ h in
      (check_entry_sound holder p first, (validate_entries_iff holder ps).0 rest)),
  (λ h. rw (check_entry_complete holder p h.0) ((validate_entries_iff holder ps).1 h.1)),
)

-- Validation accepts a configuration exactly when every participant that requires DCP has a
-- `provider_did` and the file has a `[holder]` section.
pub validate_iff :
    (config : ParticipantsConfig)
    → (validate config ≡ ok tt) ↔ All (CanAuthenticate config.holder) config.participants
unfolding validate
validate_iff config = validate_entries_iff config.holder config.participants

-- The error names this participant, and says the first thing that it lacks.
abbrev pub IsOffence : Option HolderConfig → ParticipantEntry → ConfigError → Type 0
IsOffence holder p e =
    (p.requires_dcp ≡ true)
    × ((p.provider_did ≡ none) × (e ≡ missing_provider_did p.id)
        ⊎ (p.provider_did ≢ none) × (holder ≡ none) × (e ≡ missing_holder_section p.id))

pub record FirstOffence (config : ParticipantsConfig) (e : ConfigError) : Type 0 where
  pub before : List ParticipantEntry
  pub offender : ParticipantEntry
  pub after : List ParticipantEntry
  pub position : config.participants ≡ before ++ offender ∷ after
  pub others_pass : All (CanAuthenticate config.holder) before
  pub offence : IsOffence config.holder offender e

check_entry-IsOffence :
    (holder : Option HolderConfig) (p : ParticipantEntry) (e : ConfigError)
    → check_entry holder p ≡ err e
    → IsOffence holder p e
unfolding check_entry
check_entry-IsOffence holder p e h = ground arith

-- The offender of a list of entries, with what stands before it
Offender : Option HolderConfig → List ParticipantEntry → ConfigError → Type 0
Offender holder ps e =
    (before : List ParticipantEntry) × (offender : ParticipantEntry) × (after : List
      ParticipantEntry)
    × (ps ≡ before ++ offender ∷ after)
    × All (CanAuthenticate holder) before
    × IsOffence holder offender e

validate_entries-Offender :
    (holder : Option HolderConfig) (ps : List ParticipantEntry) (e : ConfigError)
    → validate_entries holder ps ≡ err e
    → Offender holder ps e
unfolding validate_entries Offender
validate_entries-Offender holder [] e h = absurd (ground arith)
validate_entries-Offender holder (p ∷ ps) e h =
    at_entry (check_entry holder p) refl h (validate_entries-Offender holder ps e)
  where
    at_entry :
        (r : Result (Unit {0}) ConfigError)
        → check_entry holder p ≡ r
        → (r >>= (λ _. validate_entries holder ps)) ≡ err e
        → (validate_entries holder ps ≡ err e → Offender holder ps e)
        → Offender holder (p ∷ ps) e
    at_entry (ok u) q k ih =
        let (before, offender, after, position, passed, offence) = ih k in
        (
          p ∷ before,
          offender,
          after,
          ap (◌∷◌ p) position,
          (check_entry_sound holder p q, passed),
          offence,
        )
    at_entry (err e') q k ih = ([], p, ps, refl, tt, check_entry-IsOffence holder p e (q ∙ k))

-- A refused configuration has a participant that cannot authenticate, all before it can, and the
-- error names that participant and its first lack: the DID before the `[holder]` section.
pub validate-FirstOffence :
    (config : ParticipantsConfig) (e : ConfigError)
    → validate config ≡ err e
    → FirstOffence config e
unfolding validate Offender
validate-FirstOffence config e h =
    let (before, offender, after, position, passed, offence) =
      validate_entries-Offender config.holder config.participants e h in
    record {
      before = before;
      offender = offender;
      after = after;
      position = position;
      others_pass = passed;
      offence = offence;
    }

-- Every configuration that `parse` returns has been validated.
pub parse_validated :
    (source : ConfigSource) (raw path : String) (config : ParticipantsConfig)
    → parse source raw path ≡ ok config
    → validate config ≡ ok tt
unfolding parse
parse_validated source raw path config h =
    let (parsed, e, k) =
      >>=-eq-ok (map_err (parse_error path) (source.toml_from_str raw))
        (λ (c : ParticipantsConfig). validate c >> ok c) h in
    let (u, checked, same) = >>=-eq-ok (validate parsed) (λ _. ok parsed) k in
    let equal : parsed ≡ config = cc in rw (← equal) checked

-- Every configuration that `load` returns can authenticate at each of its participants.
pub load_sound :
    (source : ConfigSource) (path : String) (config : ParticipantsConfig)
    → load source path ≡ ok config
    → All (CanAuthenticate config.holder) config.participants
unfolding load
load_sound source path config h =
    let (raw, e, k) =
      >>=-eq-ok (map_err (io path) (source.read_to_string path))
        (λ (raw : String). parse source raw path) h in
    (validate_iff config).0 (parse_validated source raw path config k)
