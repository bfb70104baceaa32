-- ===== src/Tests/Showing.antt =====
-- What the read model shows of small tables.
use vpn_pulse.Reading.Overview.{stuck_count}
use vpn_pulse.Prelude.{nat_eq}
use vpn_pulse.Reading.Readiness.{is_recent}
use vpn_pulse.Reading.Readiness.{last_run}
use vpn_pulse.Reading.Overview.Health.{run_is_recent}
use vpn_pulse.Reading.Admin.{admin_probes}
use vpn_pulse.Prelude.Lists.{select}
use vpn_pulse.Store.Probes.{new_probe}
use vpn_pulse.Pipeline.Tables.{ok}
use vpn_pulse.Tests.Rows.{settings}
use vpn_pulse.Clock.{text_lt}
use vpn_pulse.Prelude.{option_eq}
use vpn_pulse.Reading.Evidence.{latest_of}
use vpn_pulse.Prelude.Lists.{find}
use vpn_pulse.Domain.Models.{state_eq}
use vpn_pulse.Domain.Recommender.{eligible}
use vpn_pulse.Domain.Recommender.{choose}
use vpn_pulse.Domain.Recommender.{recommend_server}
use vpn_pulse.Prelude.{
  ℕ, zero, suc, ◌+◌, String, true, false, ◌≡◌, refl, ◌↔◌, Option, none, some, List, [], ◌∷◌, ltb,
  leb, if◌then◌else◌, ◌==◌, string_eq, arith,
}
use vpn_pulse.Prelude.Lists.{any}
use vpn_pulse.Domain.Models.{operational, unavailable, unknown, success}
use vpn_pulse.Domain.Recommender.{Loads}
use vpn_pulse.Store.Tables.{Database, ObservationRow, EventRow}
use vpn_pulse.Alerts.Tables.{Snapshot, Transition}
use vpn_pulse.Alerts.Tables
use vpn_pulse.Alerts.Repository.{snapshot_of}
use vpn_pulse.Pipeline.Tables.{State}
use vpn_pulse.Reading.Timeline.{
  timeline, state_at, transitions_of, scope_of, current_state, known_from, first_state,
  availability,
}
use vpn_pulse.Reading.Timeline.Replay.{replay, timeline-replay}
use vpn_pulse.Reading.Timeline.Window.{IsShare, availability-IsShare}
use vpn_pulse.Reading.Evidence.{Evidence, evidence}
use vpn_pulse.Reading.Evidence.Shown.{evidence_without_mobile}
use vpn_pulse.Reading.Cards.{ServerEntry, plain}
use vpn_pulse.Reading.Status.{status}
use vpn_pulse.Reading.Status.Overall.{is_starred, status-recommended}
use vpn_pulse.Reading.Feed.{Numerals, feed}
use vpn_pulse.Reading.Feed.Pages.{read_pages, read_pages-feed}
use vpn_pulse.Reading.Overview.{Texts, healthy, admin_overview}
use vpn_pulse.Reading.Overview.Health.{all_is_well, admin_overview-healthy}
use vpn_pulse.Tests.Rows.{empty}

abbrev row : String → ℕ → ObservationRow
row source at = record {
  id = source;
  server_id = "de";
  source_kind = source;
  network_scope = "country";
  observed_at = at;
  received_at = at;
  result = success;
  fresh_until = at + 180;
  confidence = "sufficient";
  metrics = record {
    checks = [];
    full_vpn_test = none;
    control_internet_ok = none;
    route_verified = none;
    network_type = none;
    via_server_id = none;
    connections = ("amneziawg", some 3) ∷ [];
  };
  error_code = none;
  collection_run_id = none;
  probe_report_id = none;
}

abbrev observed : Database
observed = record empty { observations = row "collector" 10 ∷ row "mobile" 20 ∷ [] }

abbrev outage : Transition
outage = record {
  id = "t";
  scope_key = "server:de";
  from_state = operational;
  to_state = unavailable;
  reason_code = "";
  opened_at = 40;
  confirmed_at = 40;
  closed_at = none;
  dedupe_key = "d";
  evidence = record { count = 1; coverage = record { num = 1; den = 1 } };
}

abbrev snapshot : Snapshot
snapshot = record {
  scope_key = "server:de";
  server_id = "de";
  network_scope = "all";
  state = operational;
  reason_code = "OK";
  confidence = "sufficient";
  observed_at = some 50;
  evaluated_at = 50;
  fresh_until = some 230;
  evidence = record { count = 1; coverage = record { num = 1; den = 1 } };
  version = 1;
}

abbrev alerts : Tables.Tables
alerts = record { snapshots = snapshot ∷ []; transitions = outage ∷ []; queue = [] }

timeline-replay_example : state_at (timeline observed alerts "de" 0 100) 60 ≡ (
    if ltb 60 (known_from observed "de" 100)
    then unknown
    else replay 60
        (first_state
          (transitions_of alerts (scope_of "de"))
          (current_state (snapshot_of alerts (scope_of "de")) 100))
        (transitions_of alerts (scope_of "de")))
timeline-replay_example = timeline-replay observed alerts "de" 0 100 60 (omega arith) (omega arith)

availability-IsShare_example :
    IsShare (availability observed alerts "de" 80 100).0
    × IsShare (availability observed alerts "de" 80 100).1
availability-IsShare_example = availability-IsShare observed alerts "de" 80 100 (omega arith)

evidence_without_mobile_example :
    any (λ (e : Evidence). e.source == "mobile") (evidence observed "de" 100) ≡ false
evidence_without_mobile_example = evidence_without_mobile observed "de" 100

abbrev counts : Loads
counts = record { Load = ℕ; le = leb; times_1_10 = λ n. n }

abbrev pub config : List ServerEntry
config =
    record {
      id = "de";
      type = "awg-host";
      enabled = true;
      name = plain "Germany";
      country_code = "DE";
      recommended_priority = 100;
    }
    ∷ []

star :
    (status counts (λ n. n) 900 observed alerts config 100 "en").recommended_server_id ≡ some "de"
unfolding status recommend_server choose eligible state_eq find string_eq latest_of option_eq
star = refl

status-recommended_example :
    any
      (is_starred counts (λ (n : ℕ). n) 900 "de")
      (status counts (λ n. n) 900 observed alerts config 100 "en").servers
    ≡ true
status-recommended_example =
    status-recommended counts (λ n. n) 900 observed alerts config 100 "en" "de" star

-- Numbers as rows of strokes.
unfoldable strokes : ℕ → String
strokes zero = "0"
strokes (suc n) = String.◌∷◌ "1" (strokes n)

unfoldable count : String → Option ℕ
count String.[] = none
count (String.◌∷◌ c t) = elim (count t) [ none ↦ some 0 | some n ↦ some (suc n) ]

count-strokes : (n : ℕ) → count (strokes n) ≡ some n
unfolding count strokes
count-strokes zero = refl
count-strokes (suc n) = ground (arith, count-strokes n)

abbrev numerals : Numerals
numerals = record { print = strokes; read = count }

abbrev event : String → ℕ → EventRow
event id at = record {
  id = id;
  kind = "state";
  severity = "critical";
  server_id = "de";
  transition_id = "t";
  title_key = "event.unavailable";
  state = "unavailable";
  occurred_at = at;
  visible_to = "member";
  created_at = at;
}

abbrev told : Database
told = record empty { events = event "a" 5 ∷ event "b" 7 ∷ [] }

read_pages-feed_example :
    read_pages numerals told "all" 1 "member" 3 none ≡ feed told "all" "member"
unfolding feed string_eq text_lt
read_pages-feed_example =
    read_pages-feed numerals told "all" 1 "member" (omega arith) count-strokes 3 (omega arith)

abbrev pub texts : Texts
texts = record {
  lang = "en";
  t = λ key. key;
  probe_silent = λ name minutes. name;
  queue_stuck = λ n. "stuck";
  attention = λ row. [];
}

abbrev pub state : State
state = record {
  db = observed;
  alerts = alerts;
  runs = [];
  hourly = [];
  last_maintenance = none;
  run_count = 0;
}

-- A server, a probe that was just seen, a run that was just over, and nothing to be told.
abbrev well : State
well = record state {
  db = record observed {
    probes =
        record (new_probe settings "pc" [] "1.0" none "pc-1" "token" "tok" 5) {
          last_seen_at = some 90;
        }
        ∷ [];
  };
  alerts = record alerts { queue = [] };
  runs =
      record {
        id = "run";
        started_at = 80;
        finished_at = some 90;
        result = some ok;
        trace_id = "trace";
        duration_ms = some 1;
        error_code = none;
      }
      ∷ [];
}

well-all_is_well : all_is_well texts 900 60 config well 100 ≡ true
unfolding select admin_probes string_eq run_is_recent last_run is_recent nat_eq stuck_count
well-all_is_well = refl

admin_overview-healthy_example :
    ((admin_overview texts 900 60 config well 100).result ≡ healthy) ↔ (true ≡ true)
unfolding select admin_probes string_eq run_is_recent last_run is_recent nat_eq stuck_count
admin_overview-healthy_example = admin_overview-healthy texts 900 60 config well 100
