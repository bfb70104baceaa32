-- ===== src/Reading/Evidence.antt =====
-- storage/read_model.py: `_latest_by_source`, `_freshness`, `_evidence` and `_presence`.
pub mod Shown
use vpn_pulse.Prelude.{
  ℕ, ◌+◌, ◌*◌, String, Bool, true, false, not, ◌&&◌, ◌||◌, Option, none, some, List, [], ◌∷◌, map,
  ltb, leb, is_some, contains, if◌then◌else◌, ◌==◌, string_eq,
}
use vpn_pulse.Prelude.Lists.{select, any}
use vpn_pulse.Prelude.Sorting.{sort, by_key}
use vpn_pulse.Clock.{text_le}
use vpn_pulse.Domain.Models.{
  State, operational, unavailable, unknown, ObservationResult, success, failure, not_run,
}
use vpn_pulse.Store.Tables.{ObservationRow, Probe, Database}

pub record Freshness : Type 0 where
  pub observed_at : Option ℕ
  pub fresh_until : Option ℕ
  pub is_stale : Bool

pub record Evidence : Type 0 where
  pub source : String
  pub state : State
  pub freshness : Freshness
  pub reason_code : Option String
  pub via_server_id : Option String

-- EVIDENCE_SOURCES
abbrev pub evidence_sources : List String
evidence_sources = "collector" ∷ "human_activity" ∷ "pc" ∷ "android" ∷ "abroad" ∷ []

-- RESULT_STATE, on the results that a row can hold.
unfoldable pub result_state : ObservationResult → State
result_state success = operational
result_state failure = unavailable
result_state not_run = unknown

abbrev pub is_evidence_of : String → String → ObservationRow → Bool
is_evidence_of server_id source o = o.server_id == server_id && o.source_kind == source

-- ORDER BY observed_at DESC LIMIT 1, by the texts; of equal texts the model takes the last.
unfoldable pub newest_row : Option ObservationRow → List ObservationRow → Option ObservationRow
newest_row best [] = best
newest_row none (o ∷ rows) = newest_row (some o) rows
newest_row (some b) (o ∷ rows) =
    newest_row (some (if text_le b.observed_at o.observed_at then o else b)) rows

unfoldable pub latest_of : Database → String → String → Option ObservationRow
unfolding newest_row select
latest_of db server_id source =
    newest_row none (select (is_evidence_of server_id source) db.observations)

abbrev pub with_row :
    String → Option ObservationRow → List (String × ObservationRow) → List (String × ObservationRow)
with_row source none rows = rows
with_row source (some row) rows = (source, row) ∷ rows

unfoldable pub rows_of : Database → String → List String → List (String × ObservationRow)
unfolding latest_of
rows_of db server_id [] = []
rows_of db server_id (source ∷ sources) =
    with_row source (latest_of db server_id source) (rows_of db server_id sources)

unfoldable pub latest_by_source : Database → String → List (String × ObservationRow)
unfolding rows_of
latest_by_source db server_id = rows_of db server_id evidence_sources

abbrev pub is_past : Option ℕ → ℕ → Bool
is_past none now = true
is_past (some t) now = ltb t now

abbrev pub freshness : Option ℕ → Option ℕ → ℕ → Freshness
freshness observed_at fresh_until now = record {
  observed_at = observed_at;
  fresh_until = fresh_until;
  is_stale = is_past fresh_until now;
}

abbrev pub is_shown : String → Bool
is_shown source = contains ("pc" ∷ "mobile" ∷ "abroad" ∷ "human_activity" ∷ "collector" ∷ []) source

-- `order`, on the sources that are shown.
unfoldable pub place_of : String → ℕ
place_of source =
    if source == "pc"
    then 0
    else if source == "mobile"
    then 1
    else if source == "abroad"
    then 2
    else if source == "human_activity"
    then 3
    else 4

abbrev pub evidence_of : ℕ → String × ObservationRow → Evidence
evidence_of now (source, row) = record {
  source = source;
  state = result_state row.result;
  freshness = freshness (some row.observed_at) (some row.fresh_until) now;
  reason_code = row.error_code;
  via_server_id = if source == "abroad" then row.metrics.via_server_id else none;
}

unfoldable pub evidence : Database → String → ℕ → List Evidence
unfolding latest_by_source result_state select sort place_of
evidence db server_id now = sort (by_key (λ (e : Evidence). place_of e.source)) (
    map (evidence_of now) (select (λ (source, _). is_shown source) (latest_by_source db server_id)))

pub record Presence : Type 0 where
  pub source : String
  pub is_active : Bool
  pub last_report_at : ℕ

-- The kind that SOURCE_OF_PROBE takes to a source.
unfoldable pub kind_of_source : String → Option String
kind_of_source source =
    if source == "pc"
    then some "pc"
    else if source == "mobile"
    then some "android"
    else if source == "abroad"
    then some "abroad"
    else none

-- MAX(last_seen_at) of the probes of a kind that are not revoked, by the texts.
unfoldable pub last_seen : String → List Probe → Option ℕ
last_seen kind [] = none
last_seen kind (p ∷ probes) =
    let rest = last_seen kind probes in
    if p.kind == kind && not (p.status == "revoked") then later_text p.last_seen_at rest else rest
  where
    later_text : Option ℕ → Option ℕ → Option ℕ
    later_text none b = b
    later_text (some a) none = some a
    later_text (some a) (some b) = some (if text_le a b then b else a)

abbrev pub presence_at : ℕ → ℕ → String → Option ℕ → Option Presence
presence_at silent_after now source none = none
presence_at silent_after now source (some seen) =
    some
      (record { source = source; is_active = leb now (seen + silent_after); last_report_at = seen })

abbrev pub seen_as : Option String → List Probe → Option ℕ
seen_as none probes = none
seen_as (some kind) probes = last_seen kind probes

-- `_presence`, the dict that is returned at a source.
unfoldable pub presence : ℕ → Database → ℕ → String → Option Presence
unfolding kind_of_source last_seen
presence silent_after db now source =
    presence_at silent_after now source (seen_as (kind_of_source source) db.probes)
