-- ===== src/Alerts/Tables.antt =====
-- The rows of the tables that repository.py writes (migrations/0001_initial.sql). Columns that hold
-- an ISO text hold the instant that it is the text of: every writer of these tables prints
-- "+00:00", and such texts sort as their instants do. Params and evidence are JSON of fixed shape.
use vpn_pulse.Prelude.{ℕ, String, Option, List, Eq}
use vpn_pulse.Domain.Models.{State, Ratio}

pub data Destination : Type 0 where
  group admin : Destination

-- "bot.unavailable", "bot.recovered", "bot.degraded" and "bot.unknown".
pub data Template : Type 0 where
  bot_unavailable bot_recovered bot_degraded bot_unknown : Template

pub data QueueState : Type 0 where
  pending sent superseded failed : QueueState

destination_dec : Discrete Destination
destination_dec = hlevel

template_dec : Discrete Template
template_dec = hlevel

queue_state_dec : Discrete QueueState
queue_state_dec = hlevel

instance unfoldable pub destination_eq : Eq Destination
unfolding destination_dec
destination_eq = record { dec = destination_dec }

instance unfoldable pub template_eq : Eq Template
unfolding template_dec
template_eq = record { dec = template_dec }

instance unfoldable pub queue_state_eq : Eq QueueState
unfolding queue_state_dec
queue_state_eq = record { dec = queue_state_dec }

pub record Evidence : Type 0 where
  pub count : ℕ
  pub coverage : Ratio

pub record Snapshot : Type 0 where
  pub scope_key : String
  pub server_id : String
  pub network_scope : String
  pub state : State
  pub reason_code : String
  pub confidence : String
  pub observed_at : Option ℕ
  pub evaluated_at : ℕ
  pub fresh_until : Option ℕ
  pub evidence : Evidence
  pub version : ℕ

pub record Transition : Type 0 where
  pub id : String
  pub scope_key : String
  pub from_state : State
  pub to_state : State
  pub reason_code : String
  pub opened_at : ℕ
  pub confirmed_at : ℕ
  pub closed_at : Option ℕ
  pub dedupe_key : String
  pub evidence : Evidence

pub record Params : Type 0 where
  pub server_id : String
  pub scope_key : String
  pub state : State
  pub from_state : State

pub record Notification : Type 0 where
  pub id : String
  pub transition_id : String
  pub destination : Destination
  pub template : Template
  pub params : Params
  pub state : QueueState
  pub attempts : ℕ
  pub next_attempt_at : ℕ
  pub locked_until : Option ℕ
  pub sent_at : Option ℕ
  pub last_error_code : Option String
  pub dedupe_key : String
  pub created_at : ℕ

pub record Tables : Type 0 where
  pub snapshots : List Snapshot
  pub transitions : List Transition
  pub queue : List Notification
