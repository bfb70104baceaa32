-- ===== src/Pipeline/Loop.antt =====
-- `Pipeline.notify`, `maintenance_due`, `maintain` and `run_once`. What the collectors and the
-- messenger return are inputs, and so are the ids and the duration of the run, and what is left of a
-- run that raises.
pub mod Upkeep
use vpn_pulse.Prelude.{
  ℕ, ◌+◌, ◌-◌, String, Bool, true, false, Option, none, some, List, leb, if◌then◌else◌, ◌==◌,
  nat_eq,
}
use vpn_pulse.Prelude.Tables.{delete_where, count_where}
use vpn_pulse.Clock.{days, text_lt}
use vpn_pulse.Alerts.Repository.{Naming}
use vpn_pulse.Alerts.Worker.{Messenger, Counts, deliver_pending}
use vpn_pulse.Alerts.Tables
use vpn_pulse.Store.Tables.{Settings, Database}
use vpn_pulse.Store.Probes.{ServerConfig}
use vpn_pulse.Store.Retention.{Swept, sweep, sync_servers}
use vpn_pulse.Pipeline.Tables.{Outcome, MetricHour, CollectionRun, State}
use vpn_pulse.Pipeline.Collect.{Ids, Summary, collect}
use vpn_pulse.Pipeline.Evaluate.{Verdict, evaluate}
use vpn_pulse.Pipeline.Aggregate.{aggregate_hourly}

-- What the pipeline is made with: the `monitoring` section and the two arguments.
pub record Options : Type 0 where
  pub freshness_seconds : ℕ
  pub interval_seconds : ℕ
  pub confirmations : ℕ
  pub quiet_seconds : ℕ
  pub aggregates_days : ℕ
  pub maintenance_interval : ℕ
  pub backoff_seconds : ℕ

pub record Maintained : Type 0 where
  pub swept : Swept
  pub aggregates : ℕ
  pub aggregated : ℕ

pub record RunSummary : Type 0 where
  pub collected : Summary
  pub transitions : List Verdict
  pub notifications : Counts
  pub maintenance : Option Maintained

-- What one run is given by the outside.
pub record Inputs : Type 0 where
  pub run_id : String
  pub trace_id : String
  pub duration : ℕ
  pub outcomes : List (String × Outcome)

-- What a run left behind that raised before it was counted: the tables as far as they were written,
-- and the messenger. The two fields that the loop keeps for itself are written at the end of
-- `maintain` and after it.
pub record Fault (M : Type 0) : Type 0 where
  pub db : Database
  pub alerts : Tables.Tables
  pub runs : List CollectionRun
  pub hourly : List MetricHour
  pub messenger : M

abbrev pub left_by : {M : Type 0} → Fault M → State → State
left_by f st = record st { db = f.db; alerts = f.alerts; runs = f.runs; hourly = f.hourly }

unfoldable pub notify : {M : Type 0} → Messenger M → ℕ → ℕ → M → State → State × M × Counts
notify send backoff now m st =
    let (n, m', queue) = deliver_pending send backoff now m st.alerts.queue in
    (record st { alerts = record st.alerts { queue = queue } }, m', n)

-- `now - self.last_maintenance >= self.maintenance_interval`, where the clock may have gone back.
unfoldable pub due_after : ℕ → ℕ → Option ℕ → Bool
due_after interval now none = true
due_after interval now (some last) = leb (last + interval) now

abbrev pub maintenance_due : Options → ℕ → State → Bool
maintenance_due o now st = due_after o.maintenance_interval now st.last_maintenance

-- `DELETE FROM metric_hourly WHERE bucket_at < ?`
abbrev pub old_hour : Options → ℕ → MetricHour → Bool
old_hour o now m = text_lt m.bucket_at (now - days o.aggregates_days)

-- The sweep and the deletion are committed before the hours are aggregated. Nothing stands for the
-- error of that step, which ends the run.
unfoldable pub finish_maintenance :
    ℕ → State → Swept → ℕ → Option (List MetricHour × ℕ) → State × Option Maintained
finish_maintenance now st swept aggregates none = (st, none)
finish_maintenance now st swept aggregates (some (hourly, rows)) = (
  record st { hourly = hourly; last_maintenance = some now },
  some (record { swept = swept; aggregates = aggregates; aggregated = rows }),
)

unfoldable pub maintain : Settings → Options → ℕ → State → State × Option Maintained
unfolding finish_maintenance
maintain s o now st =
    let (db, swept) = sweep s st.db now in
    let st' : State = record st { db = db; hourly = delete_where (old_hour o now) st.hourly } in
    finish_maintenance now st' swept (count_where (old_hour o now) st.hourly)
      (aggregate_hourly o.interval_seconds 25 now st')

-- `if self.runs == 0: self.ensure_servers(now)`
unfoldable pub ensure_servers : List ServerConfig → ℕ → State → State
ensure_servers servers now st =
    if st.run_count == 0 then record st { db = sync_servers now servers st.db } else st

-- What is left after the maintenance: the count and the summary, or nothing when it raised.
unfoldable pub count_run :
    (Option Maintained → RunSummary) → State × Option Maintained → State × Option RunSummary
count_run summary (st, none) = (st, none)
count_run summary (st, some kept) =
    (record st { run_count = st.run_count + 1 }, some (summary (some kept)))

-- `self.maintain(now) if self.maintenance_due(now) else None`, and what follows.
unfoldable pub end_run :
    Bool
    → Settings
    → Options
    → ℕ
    → (Option Maintained → RunSummary)
    → State
    → State × Option RunSummary
unfolding count_run
end_run false s o now summary st = (record st { run_count = st.run_count + 1 }, some (summary none))
end_run true s o now summary st = count_run summary (maintain s o now st)

module _ {M : Type 0} (ids : Ids) (names : Naming) (event_uuid : String → String)
    (send : Messenger M) where
  unfoldable pub run_steps :
      Settings
      → Options
      → List ServerConfig
      → ℕ
      → Inputs
      → M
      → State
      → State × M × Option RunSummary
  run_steps s o servers now given m st =
      let (st1, collected) =
        collect ids o.freshness_seconds given.run_id given.trace_id given.duration now
          given.outcomes (ensure_servers servers now st) in
      let (st2, transitions) =
        evaluate names event_uuid o.quiet_seconds o.confirmations now servers st1 in
      let (st3, m', delivered) = notify send o.backoff_seconds now m st2 in
      let (st4, summary) =
        end_run (maintenance_due o now st3) s o now
          (λ maintenance. record {
            collected = collected;
            transitions = transitions;
            notifications = delivered;
            maintenance = maintenance;
          })
          st3 in
      (st4, m', summary)

  -- `run_once`: where a step raises, but for the aggregation of the hours, what it left is given.
  unfoldable pub run_once :
      Settings
      → Options
      → List ServerConfig
      → ℕ
      → Inputs
      → Option (Fault M)
      → M
      → State
      → State × M × Option RunSummary
  unfolding run_steps
  run_once s o servers now given none m st = run_steps s o servers now given m st
  run_once s o servers now given (some f) m st = (left_by f st, f.messenger, none)
