-- ===== src/Tests/Reporting.antt =====
-- A report, a sweep and a new configuration on small tables.
use vpn_pulse.Prelude.Groups.{group_by}
use vpn_pulse.Prelude.{
  ℕ, ◌+◌, true, false, ◌≡◌, refl, none, some, List, [], ◌∷◌, string_eq, option_eq,
}
use vpn_pulse.Prelude.Lists.{any, length, select, find}
use vpn_pulse.Domain.Models.{failure, result_eq}
use vpn_pulse.Store.Tables.{Database}
use vpn_pulse.Store.Probes.{ProbeSummary, ServerConfig}
use vpn_pulse.Store.Reports.{CheckResult, Payload, Hashing, stored, known_targets, accept_report}
use vpn_pulse.Store.Reports.Idempotence.{accept_report_again}
use vpn_pulse.Store.Retention.{sweep}
use vpn_pulse.Store.Retention.Kept.{is_young, is_ancient, sweep-observations, sweep-counts}
use vpn_pulse.Tests.Rows.{settings, empty}

abbrev pub hashing : Hashing
hashing = record { uuid5 = λ name. name; digest = λ payload. payload.report_id }

abbrev summary : ProbeSummary
summary = record {
  id = "pc-1";
  kind = "pc";
  status = "active";
  last_seen_at = none;
  capabilities = [];
  agent_version = "1.0";
  route_verified = none;
  network_type = none;
  via_server_id = none;
  internal_id = "pc-1";
}

abbrev https_failed : CheckResult
https_failed = record {
  target_id = "de";
  check = "https";
  result = failure;
  error_code = some "TIMEOUT";
  not_run_reason = none;
}

abbrev payload : Payload
payload = record {
  report_id = "r-1";
  schema_version = 1;
  agent_version = "1.0";
  observed_at = 4;
  network = record { type = "wifi"; ip_family = "ipv4"; route_verified = true };
  results = https_failed ∷ [];
}

abbrev reported : Database
reported = (accept_report settings hashing summary payload 5 empty).0

accept_report_first :
    accept_report settings hashing summary payload 5 empty ≡ (reported, stored false 1)
unfolding accept_report find known_targets select group_by any string_eq
accept_report_first = refl

accept_report_again_example :
    accept_report settings hashing summary payload 9 reported ≡ (reported, stored true 0)
accept_report_again_example =
    accept_report_again settings hashing summary payload 5 empty reported 1 9 accept_report_first

-- A day of January 1970 in the life of the database: 40 days, in microseconds.
abbrev forty_days : ℕ
forty_days = 3456000000000

sweep-observations_example :
    (select (is_young 864000000000) (sweep settings reported forty_days).0.observations
      ≡ select (is_young 864000000000) reported.observations)
    × (select (is_ancient 864000000000) (sweep settings reported forty_days).0.observations ≡ [])
sweep-observations_example = sweep-observations settings reported forty_days

sweep-counts_example :
    let (after, n) = sweep settings reported forty_days in
    (length after.sessions + n.sessions ≡ length reported.sessions)
    × (length after.enrollments + n.enrollments ≡ length reported.enrollments)
    × (length after.observations + n.observations ≡ length reported.observations)
    × (length after.reports + n.reports ≡ length reported.reports)
    × (length after.events + n.events ≡ length reported.events)
    × (length after.audit + n.audit ≡ length reported.audit)
sweep-counts_example = sweep-counts settings reported forty_days

abbrev configured : List ServerConfig
configured = record { id = "fi"; type = "hiddify"; enabled = true } ∷ []
