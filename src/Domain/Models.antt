-- ===== src/Domain/Models.antt =====
-- vpnpulse/domain/models.py. An instant is a number of microseconds.
use vpn_pulse.Prelude.{ℕ, String, Bool, Option, Eq}

pub data State : Type 0 where
  operational degraded unavailable unknown : State

pub data ObservationResult : Type 0 where
  success failure not_run : ObservationResult

state_dec : Discrete State
state_dec = hlevel

result_dec : Discrete ObservationResult
result_dec = hlevel

instance unfoldable pub state_eq : Eq State
unfolding state_dec
state_eq = record { dec = state_dec }

instance unfoldable pub result_eq : Eq ObservationResult
unfolding result_dec
result_eq = record { dec = result_dec }

-- The text that a StrEnum is.
unfoldable pub state_value : State → String
state_value operational = "operational"
state_value degraded = "degraded"
state_value unavailable = "unavailable"
state_value unknown = "unknown"

pub record Observation : Type 0 where
  pub source : String
  pub result : ObservationResult
  pub observed_at : ℕ
  pub fresh_until : ℕ
  pub full_vpn_test : Bool
  pub control_internet_ok : Option Bool
  pub reason_code : Option String
  pub route_verified : Option Bool

-- A float that the code makes by one division of two integers: the exact quotient.
pub record Ratio : Type 0 where
  pub num : ℕ
  pub den : ℕ

pub record Evaluation : Type 0 where
  pub state : State
  pub reason_code : String
  pub observed_at : Option ℕ
  pub fresh_until : Option ℕ
  pub evidence_count : ℕ
  pub coverage : Ratio
