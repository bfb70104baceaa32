-- ===== src/Pipeline/Tables.antt =====
-- The state of the loop: the database with the alert tables, and the fields of `Pipeline`.
use vpn_pulse.Prelude.{ℕ, String, Bool, Option, List}
use vpn_pulse.Domain.Models.{ObservationResult, Ratio}
use vpn_pulse.Store.Tables.{Metrics, Database}
use vpn_pulse.Alerts.Tables

-- vpnpulse/collectors/base.py, `Collected`. Its `metrics` are a dict with the keys of
-- `Metrics`, which are those that the loop and the read model look up later.
pub record Collected : Type 0 where
  pub server_id : String
  pub source : String
  pub result : ObservationResult
  pub observed_at : ℕ
  pub metrics : Metrics
  pub error_code : Option String
  pub network_scope : String
  pub full_vpn_test : Bool
  pub control_internet_ok : Option Bool
  pub probe_id : Option String

-- What a call of `collector.collect(now)` comes to.
pub data Outcome : Type 0 where
  items : List Collected → Outcome
  raised : Outcome

pub data RunResult : Type 0 where
  ok partial error : RunResult

pub record CollectionRun : Type 0 where
  pub id : String
  pub started_at : ℕ
  pub finished_at : Option ℕ
  pub result : Option RunResult
  pub trace_id : String
  pub duration_ms : Option ℕ
  pub error_code : Option String

-- A row of `metric_hourly` for the metric 'connections'; the average is the exact quotient.
pub record MetricHour : Type 0 where
  pub bucket_at : ℕ
  pub server_id : String
  pub protocol_id : String
  pub min : ℕ
  pub max : ℕ
  pub avg : Ratio
  pub samples : ℕ
  pub unknown_seconds : ℕ

pub record State : Type 0 where
  pub db : Database
  pub alerts : Tables.Tables
  pub runs : List CollectionRun
  pub hourly : List MetricHour
  pub last_maintenance : Option ℕ
  pub run_count : ℕ
