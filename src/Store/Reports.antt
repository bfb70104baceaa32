-- ===== src/Store/Reports.antt =====
-- SqliteStore, "reports → observations".
pub mod Idempotence
pub mod Targets
use vpn_pulse.Prelude.{
  ℕ, ◌+◌, ◌*◌, String, ◌<>◌, Bool, true, false, not, ◌&&◌, ◌||◌, Option, none, some, List, [], ◌∷◌,
  ◌++◌, map, if◌then◌else◌, ◌==◌, contains, string_eq,
}
use vpn_pulse.Prelude.Lists.{length, select, any, all, find, nonempty}
use vpn_pulse.Prelude.Groups.{group_by}
use vpn_pulse.Prelude.Tables.{update_where}
use vpn_pulse.Clock.{seconds}
use vpn_pulse.Domain.Models.{ObservationResult, success, failure, not_run, result_eq}
use vpn_pulse.Store.Tables.{Settings, Probe, ProbeReport, Metrics, ObservationRow, Server, Database}
use vpn_pulse.Store.Probes.{ProbeSummary}

pub record CheckResult : Type 0 where
  pub target_id : String
  pub check : String
  pub result : ObservationResult
  pub error_code : Option String
  pub not_run_reason : Option String

pub record Network : Type 0 where
  pub type : String
  pub ip_family : String
  pub route_verified : Bool

pub record Payload : Type 0 where
  pub report_id : String
  pub schema_version : ℕ
  pub agent_version : String
  -- `_dt(payload["observed_at"])`: the schema of the API demands the field.
  pub observed_at : ℕ
  pub network : Network
  pub results : List CheckResult

-- `{item["check"]: item["result"] for item in items}`: the last result of a check counts.
unfoldable pub result_of : String → List CheckResult → Option ObservationResult
result_of check [] = none
result_of check (item ∷ items) = elim (result_of check items) [
  | some r ↦ some r
  | none ↦ if item.check == check then some item.result else none
]

abbrev pub has_check : String → List CheckResult → Bool
has_check check items = any (λ (i : CheckResult). i.check == check) items

abbrev pub ran : CheckResult → Bool
ran item = not (item.result == not_run)

-- The result for one target.
unfoldable pub target_result : List CheckResult → ObservationResult
unfolding select any
target_result items =
    let did_run = select ran items in
    if not (nonempty did_run)
    then not_run
    else if any (λ (i : CheckResult). i.result == failure) did_run
    then failure
    else success

-- The column `result` of the report itself.
unfoldable pub report_result : List CheckResult → ObservationResult
unfolding any all
report_result results =
    if all (λ (r : CheckResult). r.result == success) results
    then success
    else if any (λ (r : CheckResult). r.result == failure) results
    then failure
    else not_run

-- `error_code or not_run_reason`: None and the empty text are both false.
abbrev pub truthy : Option String → Option String
truthy none = none
truthy (some t) = if t == "" then none else some t

abbrev pub or_else : Option String → Option String → Option String
or_else none b = b
or_else (some a) b = some a

-- The first error or reason of an item that is no success.
unfoldable pub first_error : List CheckResult → Option String
first_error [] = none
first_error (item ∷ items) =
    let later = first_error items in
    if item.result == success
    then later
    else or_else (or_else (truthy item.error_code) (truthy item.not_run_reason)) later

unfoldable pub first_reason : List CheckResult → Option String
first_reason [] = none
first_reason (item ∷ items) = or_else (truthy item.not_run_reason) (first_reason items)

abbrev pub succeeded : Option ObservationResult → Option Bool
succeeded none = none
succeeded (some r) = some (r == success)

-- SOURCE_OF_PROBE and SCOPE_OF_PROBE, with the code's defaults.
unfoldable pub source_of_probe : String → String
source_of_probe kind =
    if kind == "android" then "mobile" else if kind == "watchdog" then "collector" else kind

unfoldable pub scope_of_probe : String → String
scope_of_probe kind =
    if kind == "abroad" then "abroad" else if kind == "watchdog" then "all" else "country"

-- The dict `checks`: a check keeps its place and takes its last result.
unfoldable pub set_check :
    String
    → ObservationResult
    → List (String × ObservationResult)
    → List (String × ObservationResult)
set_check check r [] = (check, r) ∷ []
set_check check r ((k, v) ∷ checks) =
    let rest = set_check check r checks in if k == check then (k, r) ∷ checks else (k, v) ∷ rest

unfoldable pub checks_of :
    List (String × ObservationResult) → List CheckResult → List (String × ObservationResult)
unfolding set_check
checks_of checks [] = checks
checks_of checks (item ∷ items) = checks_of (set_check item.check item.result checks) items

unfoldable pub metrics_of : ProbeSummary → Network → List CheckResult → Metrics
unfolding result_of any checks_of
metrics_of probe network items = record {
  checks = checks_of [] items;
  full_vpn_test = some (has_check "handshake" items && has_check "https" items);
  control_internet_ok = succeeded (result_of "control_internet" items);
  route_verified = some network.route_verified;
  network_type = some network.type;
  via_server_id = if probe.kind == "abroad" then probe.via_server_id else none;
  connections = [];
}

-- What the store takes from Python here: `uuid5`, and SHA-256 of the payload as sorted JSON.
pub record Hashing : Type 0 where
  pub uuid5 : String → String
  pub digest : Payload → String

pub data Accepted : Type 0 where
  -- (duplicate, observations written)
  stored : Bool → ℕ → Accepted
  -- ValueError, which rolls the transaction back
  conflict : Accepted

module _ (s : Settings) (h : Hashing) (probe : ProbeSummary) (payload : Payload) (now : ℕ) where
  abbrev pub report_row : ProbeReport
  report_row = record {
    report_id = payload.report_id;
    probe_id = probe.internal_id;
    schema_version = payload.schema_version;
    agent_version = payload.agent_version;
    observed_at = payload.observed_at;
    received_at = now;
    network_type = payload.network.type;
    ip_family = payload.network.ip_family;
    route_verified = payload.network.route_verified;
    payload_hash = h.digest payload;
    result = report_result payload.results;
    not_run_reason = first_reason payload.results;
  }

  abbrev pub observation_row : String × List CheckResult → ObservationRow
  observation_row (target_id, items) = record {
    id = h.uuid5 ("report:" <> payload.report_id <> ":" <> target_id);
    server_id = target_id;
    source_kind = source_of_probe probe.kind;
    network_scope = scope_of_probe probe.kind;
    observed_at = payload.observed_at;
    received_at = now;
    result = target_result items;
    fresh_until = payload.observed_at + seconds s.freshness_seconds;
    confidence = if payload.network.route_verified then "sufficient" else "partial";
    metrics = metrics_of probe payload.network items;
    error_code = first_error items;
    collection_run_id = none;
    probe_report_id = some payload.report_id;
  }

  abbrev pub known : Database → String → Bool
  known db id = any (λ (s : Server). s.id == id) db.servers

  -- The results by target, without the targets that are no server.
  unfoldable pub known_targets : Database → List (String × List CheckResult)
  known_targets db =
      select (λ (target, _). known db target)
        (group_by (λ (i : CheckResult). i.target_id) payload.results)

  unfoldable pub store_report : Database → Database × Accepted
  store_report db = (
    record db {
      reports = db.reports ++ report_row ∷ [];
      observations = db.observations ++ map observation_row (known_targets db);
      probes =
          update_where (λ (p : Probe). p.id == probe.internal_id)
            (λ p. record p { last_seen_at = some now }) db.probes;
    },
    stored false (length (known_targets db)),
  )

  -- INSERT OR IGNORE dropped the row: the same report once more, or another one of its name.
  unfoldable pub repeated : Database → ProbeReport → Database × Accepted
  repeated db existing =
      (db, if existing.payload_hash == h.digest payload then stored true 0 else conflict)

  abbrev pub has_report_id : ProbeReport → Bool
  has_report_id r = r.report_id == payload.report_id

  unfoldable pub accept_report : Database → Database × Accepted
  unfolding store_report repeated
  accept_report db = elim (find has_report_id db.reports) [
    | none ↦ store_report db
    | some existing ↦ repeated db existing
  ]
