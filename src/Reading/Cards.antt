-- ===== src/Reading/Cards.antt =====
-- storage/read_model.py: the cards of the servers.
use vpn_pulse.Prelude.{
  zero, suc, ℕ, String, Bool, Option, none, some, List, [], ◌∷◌, if◌then◌else◌, ◌==◌, string_eq,
  option_eq,
}
use vpn_pulse.Prelude.Lists.{select, find}
use vpn_pulse.Clock.{days}
use vpn_pulse.Domain.Models.{State, unknown, state_eq, Ratio}
use vpn_pulse.Store.Tables.{Database}
use vpn_pulse.Alerts.Tables.{Snapshot}
use vpn_pulse.Alerts.Tables
use vpn_pulse.Alerts.Repository.{snapshot_of}
use vpn_pulse.Reading.Timeline.{scope_of, state_times, availability}
use vpn_pulse.Reading.Evidence.{Freshness, Evidence, is_past, freshness, evidence}

-- A localised text of the configuration: absent, a text, or a dict from languages to texts.
pub data Words : Type 0 where
  absent : Words
  plain : String → Words
  by_language : List (String × String) → Words

-- An entry of `config["servers"]`, with the defaults of `enabled` and of the priority filled in.
pub record ServerEntry : Type 0 where
  pub id : String
  pub type : String
  pub enabled : Bool
  pub name : Words
  pub country_code : String
  pub recommended_priority : ℕ

pub record Card : Type 0 where
  pub id : String
  pub name : String
  pub country_code : String
  pub state : State
  pub freshness : Freshness
  pub recommended : Bool
  pub state_since : Option ℕ
  pub last_incident_at : Option ℕ
  pub uptime_24h : Option Ratio
  pub coverage_24h : Option Ratio
  pub sources : List Evidence

-- A value of a dict, or nothing where it is missing or empty.
unfoldable pub word_of : String → List (String × String) → Option String
word_of lang [] = none
word_of lang ((k, v) ∷ words) =
    let rest = word_of lang words in if k == lang then (if v == "" then none else some v) else rest

abbrev pub or_word : Option String → Option String → Option String
or_word none b = b
or_word (some a) b = some a

abbrev pub word_or_empty : Option String → String
word_or_empty none = ""
word_or_empty (some t) = t

-- `_text`
unfoldable pub text : Words → String → String
unfolding word_of
text absent lang = ""
text (plain t) lang = t
text (by_language words) lang =
    word_or_empty (or_word (word_of lang words) (or_word (word_of "ru" words) (word_of "en" words)))

-- The slice `[:n]` of a text.
unfoldable pub first_chars : ℕ → String → String
first_chars zero t = ""
first_chars (suc n) String.[] = ""
first_chars (suc n) (String.◌∷◌ c t) = String.◌∷◌ c (first_chars n t)

abbrev pub servers_config : List ServerEntry → List ServerEntry
servers_config config = select (λ (c : ServerEntry). c.enabled) config

abbrev pub server_config : List ServerEntry → String → Option ServerEntry
server_config config id = find (λ (c : ServerEntry). c.id == id) (servers_config config)

abbrev pub observed_of : Option Snapshot → Option ℕ
observed_of none = none
observed_of (some s) = s.observed_at

abbrev pub fresh_until_of : Option Snapshot → Option ℕ
fresh_until_of none = none
fresh_until_of (some s) = s.fresh_until

-- A snapshot that is stale reads as unknown.
unfoldable pub shown_state : Option Snapshot → ℕ → State
shown_state none now = unknown
shown_state (some s) now = if is_past s.fresh_until now then unknown else s.state

unfoldable pub card : Database → Tables.Tables → ServerEntry → ℕ → Option String → Card
unfolding text shown_state
card db alerts cfg now recommended_id =
    let snapshot = snapshot_of alerts (scope_of cfg.id) in
    let (uptime, coverage) = availability db alerts cfg.id (days 1) now in
    let (state_since, last_incident) = state_times alerts cfg.id in
    record {
      id = cfg.id;
      name = text cfg.name "ru";
      country_code = cfg.country_code;
      state = shown_state snapshot now;
      freshness = freshness (observed_of snapshot) (fresh_until_of snapshot) now;
      recommended = recommended_id == some cfg.id;
      state_since = state_since;
      last_incident_at = last_incident;
      uptime_24h = uptime;
      coverage_24h = coverage;
      sources = evidence db cfg.id now;
    }
