-- ===== src/Tests/Looping.antt =====
-- The loop on a collector that finds one server failing.
use vpn_pulse.Prelude.Lists.{length}
use vpn_pulse.Prelude.{◌++◌}
use vpn_pulse.Prelude.{Option}
use vpn_pulse.Pipeline.Forever.{Ending, goes_on, interrupted, Round, run_forever}
use vpn_pulse.Pipeline.Forever.Naps.{Counts, missed, run_forever-run_count}
use vpn_pulse.Clock.{text_lt}
use vpn_pulse.Pipeline.Aggregate.{connections_of}
use vpn_pulse.Prelude.{
  ℕ, ◌+◌, String, true, false, ◌≡◌, refl, ◌↔◌, none, some, List, [], ◌∷◌, map, if◌then◌else◌,
  string_eq, contains, arith,
}
use vpn_pulse.Prelude.Lists.{any, select}
use vpn_pulse.Domain.Models.{failure, success}
use vpn_pulse.Alerts.Repository.{Naming}
use vpn_pulse.Alerts.Worker.{Messenger, returned_true}
use vpn_pulse.Store.Tables.{ObservationRow, Protocol, Database}
use vpn_pulse.Store.Probes.{ServerConfig}
use vpn_pulse.Pipeline.Tables.{Collected, Outcome, items, raised, ok, error, MetricHour, State}
use vpn_pulse.Pipeline.Collect.{Ids, collect}
use vpn_pulse.Pipeline.Collect.Written.{AreRowsOf, collect-observations}
use vpn_pulse.Pipeline.Evaluate.{evaluate}
use vpn_pulse.Pipeline.Evaluate.Events.{state_of_server, judged, evaluate-state}
use vpn_pulse.Pipeline.Aggregate.{aggregate_protocol}
use vpn_pulse.Pipeline.Aggregate.Idempotence.{aggregate_protocol_again}
use vpn_pulse.Pipeline.Aggregate.Spill.{aggregate_protocol_spill}
use vpn_pulse.Pipeline.Loop.{Options, Inputs, Fault}
use vpn_pulse.Tests.Rows.{settings, empty}

abbrev ids : Ids
ids = record { uuid5 = λ name. name; decimal = λ n. "0" }

abbrev names : Naming
names = record { uuid5 = λ name. name; iso = λ at. "" }

abbrev found : Collected
found = record {
  server_id = "de";
  source = "collector";
  result = failure;
  observed_at = 4;
  metrics = record {
    checks = [];
    full_vpn_test = none;
    control_internet_ok = none;
    route_verified = none;
    network_type = none;
    via_server_id = none;
    connections = ("amneziawg", some 3) ∷ [];
  };
  error_code = none;
  network_scope = "all";
  full_vpn_test = false;
  control_internet_ok = none;
  probe_id = none;
}

abbrev collectors : List (String × Outcome)
collectors = ("ssh", items (found ∷ [])) ∷ ("probe", raised) ∷ []

abbrev initial : State
initial = record {
  db = empty;
  alerts = record { snapshots = []; transitions = []; queue = [] };
  runs = [];
  hourly = [];
  last_maintenance = none;
  run_count = 0;
}

-- The probe's collector failed, and the other gave one item of a server that is known.
abbrev known_initial : State
known_initial = record initial {
  db = record empty {
    servers =
        record {
          id = "de";
          public_id = "de";
          type = "awg-host";
          enabled = true;
          display_order = 0;
          created_at = 1;
          updated_at = 1;
        }
        ∷ [];
  };
}

collect-observations_example :
    let (st', summary) = collect ids 180 "run" "trace" 1 5 collectors known_initial in
    ((new : List ObservationRow) × (st'.db.observations ≡ [] ++ new)
      × AreRowsOf ids 180 "run" 5 0 (found ∷ []) new)
    × (summary.observations ≡ length (found ∷ []))
    × (summary.failed_collectors ≡ "probe" ∷ [])
    × ((summary.result ≡ ok) ↔ (true ≡ false))
    × ((summary.result ≡ error) ↔ ((true ≡ true) × (length (found ∷ []) ≡ 0)))
unfolding select any string_eq
collect-observations_example =
    collect-observations ids 180 "run" "trace" 1 5 collectors known_initial

abbrev configured : List ServerConfig
configured = record { id = "de"; type = "amnezia"; enabled = true } ∷ []

abbrev event_uuid : String → String
event_uuid name = name

abbrev collected : State
collected = (collect ids 180 "run" "trace" 1 5 collectors initial).0

evaluate-state_example :
    state_of_server (evaluate names event_uuid 600 2 6 configured collected).0 "de" ≡ (
      if contains
        (map (λ (c : ServerConfig). c.id) (select (λ (c : ServerConfig). c.enabled) configured))
        "de"
      then some (judged names event_uuid 600 2 6 collected "de")
      else state_of_server collected "de")
evaluate-state_example = evaluate-state names event_uuid 600 2 6 configured collected "de"

abbrev accepting : Messenger ℕ
accepting m template params destination = (returned_true, m + 1)

abbrev options : Options
options = record {
  freshness_seconds = 180;
  interval_seconds = 60;
  confirmations = 2;
  quiet_seconds = 600;
  aggregates_days = 90;
  maintenance_interval = 3600000000;
  backoff_seconds = 30;
}

abbrev inputs : Inputs
inputs = record { run_id = "run"; trace_id = "trace"; duration = 1; outcomes = collectors }

abbrev round : ℕ → Option (Fault ℕ) → Ending → Round ℕ
round at fault ending = record {
  started = at;
  given = inputs;
  fault = fault;
  ended = at + 9;
  ending = ending;
}

-- A run that raised before it wrote anything.
abbrev nothing_written : Fault ℕ
nothing_written = record {
  db = empty;
  alerts = initial.alerts;
  runs = [];
  hourly = [];
  messenger = 0;
}

-- A run, one that raises, and one after whose own count Ctrl+C comes.
abbrev rounds : List (Round ℕ)
rounds =
    round 5 none goes_on
    ∷ round 65000000 (some nothing_written) goes_on
    ∷ round 130000000 none interrupted
    ∷ []

run_forever-run_count_example :
    let lasted =
      run_forever ids names event_uuid accepting settings options configured rounds 0 initial in
    Counts initial.run_count lasted.runs (missed rounds) lasted.state.run_count
run_forever-run_count_example =
    run_forever-run_count ids names event_uuid accepting settings options configured rounds 0
      initial (omega arith)

abbrev sample_at : ℕ → ObservationRow
sample_at at = record {
  id = "o";
  server_id = "de";
  source_kind = "collector";
  network_scope = "all";
  observed_at = at;
  received_at = at;
  result = success;
  fresh_until = at + 180000000;
  confidence = "sufficient";
  metrics = record {
    checks = [];
    full_vpn_test = none;
    control_internet_ok = none;
    route_verified = none;
    network_type = none;
    via_server_id = none;
    connections = ("amneziawg", some 3) ∷ [];
  };
  error_code = none;
  collection_run_id = none;
  probe_report_id = none;
}

abbrev protocol : Protocol
protocol = record {
  id = "de:amneziawg";
  server_id = "de";
  kind = "amneziawg";
  label_key = "server.protocol.amneziawg";
  enabled = true;
  coverage_state = "complete";
  created_at = 0;
  updated_at = 0;
}

-- A sample at one in the morning, and one a microsecond after two.
abbrev in_time : Database
in_time = record empty { observations = sample_at 3600000000 ∷ [] }

abbrev late : Database
late = record empty { observations = sample_at 7200000001 ∷ [] }

aggregate_protocol_again_example :
    (after : List MetricHour) × (aggregate_protocol 60 25 7300000000 in_time protocol []
      ≡ some after)
    × (aggregate_protocol 60 25 7300000000 in_time protocol after ≡ some after)
unfolding any
aggregate_protocol_again_example =
    aggregate_protocol_again 60 25 7300000000 in_time protocol [] refl

aggregate_protocol_spill_example :
    (after : List MetricHour) × (aggregate_protocol 60 25 7300000000 late protocol [] ≡ some after)
    × (aggregate_protocol 60 25 7300000000 late protocol after ≡ none)
unfolding connections_of string_eq text_lt
aggregate_protocol_spill_example =
    aggregate_protocol_spill 60 25 7300000000 late protocol (sample_at 7200000001) 3 refl refl refl
      refl refl (omega arith) (omega arith)
