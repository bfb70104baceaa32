-- ===== src/Pipeline/Evaluate.antt =====
-- `Pipeline.evaluate`: the fresh observations of each enabled server, judged and saved.
pub mod Events
use vpn_pulse.Prelude.{
  ℕ, ◌+◌, ◌-◌, max, String, ◌<>◌, Bool, true, false, not, ◌&&◌, ◌||◌, Option, none, some, List, [],
  ◌∷◌, ◌++◌, map, if◌then◌else◌, ◌==◌, string_eq,
}
use vpn_pulse.Prelude.Lists.{length, select, any, dedup}
use vpn_pulse.Prelude.Sorting.{sort}
use vpn_pulse.Prelude.Tables.{insert_or_ignore}
use vpn_pulse.Clock.{seconds, text_le}
use vpn_pulse.Domain.Models.{
  operational, degraded, unavailable, unknown, state_eq, state_value, Observation, Evaluation,
}
use vpn_pulse.Domain.Models
use vpn_pulse.Domain.Evaluator.{evaluate_scope}
use vpn_pulse.Alerts.Tables
use vpn_pulse.Alerts.Repository.{Naming, Change, snapshot_of, state_before, save_evaluation}
use vpn_pulse.Store.Tables.{ObservationRow, EventRow, Database}
use vpn_pulse.Store.Probes.{ServerConfig}
use vpn_pulse.Pipeline.Tables.{State}

abbrev pub or_false : Option Bool → Bool
or_false none = false
or_false (some b) = b

-- A row as the evaluator reads it. The column `result` holds no other text than the three results.
abbrev pub observation_of_row : ObservationRow → Observation
observation_of_row o = record {
  source = o.source_kind;
  result = o.result;
  observed_at = o.observed_at;
  fresh_until = o.fresh_until;
  full_vpn_test = or_false o.metrics.full_vpn_test;
  control_internet_ok = o.metrics.control_internet_ok;
  reason_code = o.error_code;
  route_verified = o.metrics.route_verified;
}

abbrev pub is_of_server : String → ObservationRow → Bool
is_of_server id o = o.server_id == id

-- `_observations`: WHERE server_id = ? AND fresh_until >= ? ORDER BY observed_at, by the texts.
unfoldable pub observations_for : Database → String → ℕ → List Observation
unfolding select sort
observations_for db server_id now = map observation_of_row (
    sort (λ (a b : ObservationRow). text_le a.observed_at b.observed_at)
      (select (λ o. is_of_server server_id o && text_le now o.fresh_until) db.observations))

-- `_expected_sources`
unfoldable pub expected_sources : Database → String → ℕ → ℕ
unfolding select dedup
expected_sources db server_id now = max 1 (
    length (
      dedup (
        map (λ (o : ObservationRow). o.source_kind)
          (select (λ o. is_of_server server_id o && text_le (now - seconds 86400) o.observed_at)
            db.observations))))

-- EVENT_SEVERITY
unfoldable pub event_severity : Models.State → String
event_severity unavailable = "critical"
event_severity degraded = "warning"
event_severity operational = "info"
event_severity unknown = "info"

unfoldable pub is_recovery : Models.State → Models.State → Bool
is_recovery previous current =
    current == operational && (previous == degraded || previous == unavailable)

pub record Verdict : Type 0 where
  pub server_id : String
  pub from : Models.State
  pub to : Models.State
  pub reason : String

module _ (names : Naming) (event_uuid : String → String) where
  abbrev pub event_of : String → String → Models.State → Models.State → ℕ → EventRow
  event_of transition_id server_id previous current now =
      let recovery = is_recovery previous current in
      record {
        id = event_uuid ("event:" <> transition_id);
        kind = if recovery then "recovery" else "state_change";
        severity = event_severity current;
        server_id = server_id;
        transition_id = transition_id;
        title_key = if recovery then "events.recovered" else "events.stateChanged";
        state = state_value current;
        occurred_at = now;
        visible_to = "member";
        created_at = now;
      }

  -- INSERT OR IGNORE
  unfoldable pub write_event : EventRow → Database → Database
  write_event row db = record db {
    events = insert_or_ignore (λ (e : EventRow). e.id == row.id) row db.events;
  }

  module _ (quiet confirmations now : ℕ) where
    abbrev pub change_of : State → String → Change
    change_of st id = record {
      scope_key = "server:" <> id;
      server_id = id;
      network_scope = "all";
      evaluation =
          evaluate_scope (observations_for st.db id now) now (expected_sources st.db id now)
            confirmations;
      evaluated_at = now;
    }

    unfoldable pub report_transition :
        State
        → String
        → Models.State
        → Change
        → Tables.Tables × Option String
        → State × List Verdict
    unfolding write_event
    report_transition st id previous c (alerts, none) = (record st { alerts = alerts }, [])
    report_transition st id previous c (alerts, some transition_id) = (
      record st {
        alerts = alerts;
        db = write_event (event_of transition_id id previous c.evaluation.state now) st.db;
      },
      record {
        server_id = id;
        from = previous;
        to = c.evaluation.state;
        reason = c.evaluation.reason_code;
      }
          ∷ [],
    )

    unfoldable pub evaluate_server : State → String → State × List Verdict
    evaluate_server st id =
        let c = change_of st id in
        report_transition st id (state_before (snapshot_of st.alerts c.scope_key)) c
          (save_evaluation names quiet st.alerts c)

    unfoldable pub evaluate_ids : List String → State → State × List Verdict
    evaluate_ids [] st = (st, [])
    evaluate_ids (id ∷ ids) st =
        let (st', found) = evaluate_server st id in
        let (st'', more) = evaluate_ids ids st' in (st'', found ++ more)

    -- `_servers`: the enabled ones of the configuration.
    unfoldable pub evaluate : List ServerConfig → State → State × List Verdict
    unfolding select
    evaluate servers st =
        evaluate_ids
          (map (λ (c : ServerConfig). c.id) (select (λ (c : ServerConfig). c.enabled) servers)) st
