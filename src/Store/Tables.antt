-- ===== src/Store/Tables.antt =====
-- The rows of the tables that store.py writes (migrations/0001_initial.sql and 0002), and what the
-- store takes from Python. A column that holds JSON of a fixed shape holds the value it encodes.
use vpn_pulse.Prelude.{ℕ, String, Bool, Option, List}
use vpn_pulse.Domain.Models.{ObservationResult}

-- SHA-256, and the store's configuration.
pub record Settings : Type 0 where
  pub sha : String → String
  pub pepper : String
  -- `str(telegram_user_id)` and the like, inside an f-string
  pub decimal : ℕ → String
  pub session_minutes : ℕ
  pub enrollment_minutes : ℕ
  pub freshness_seconds : ℕ
  pub observations_days : ℕ
  pub events_days : ℕ
  pub analytics_raw_days : ℕ
  pub audit_days : ℕ

pub record WebSession : Type 0 where
  pub id_hash : String
  pub role : String
  pub telegram_user_hash : String
  pub created_at : ℕ
  pub expires_at : ℕ
  pub last_membership_check_at : ℕ
  pub revoked_at : Option ℕ

pub record ProbeEnrollment : Type 0 where
  pub code_hash : String
  pub kind : String
  pub capabilities : List String
  pub expires_at : ℕ
  pub used_at : Option ℕ
  pub created_by_hash : String
  pub created_at : ℕ
  pub via_server_id : Option String

pub record Probe : Type 0 where
  pub id : String
  pub public_id : String
  pub kind : String
  pub status : String
  pub capabilities : List String
  pub token_hash : String
  pub token_prefix : String
  pub schema_major : ℕ
  pub agent_version : String
  pub enrolled_at : ℕ
  pub last_seen_at : Option ℕ
  pub revoked_at : Option ℕ
  pub via_server_id : Option String

pub record ProbeReport : Type 0 where
  pub report_id : String
  pub probe_id : String
  pub schema_version : ℕ
  pub agent_version : String
  pub observed_at : ℕ
  pub received_at : ℕ
  pub network_type : String
  pub ip_family : String
  pub route_verified : Bool
  pub payload_hash : String
  pub result : ObservationResult
  pub not_run_reason : Option String

-- `metrics_json`, as far as the loop reads it: `none` where a key is missing or null.
pub record Metrics : Type 0 where
  pub checks : List (String × ObservationResult)
  pub full_vpn_test : Option Bool
  pub control_internet_ok : Option Bool
  pub route_verified : Option Bool
  pub network_type : Option String
  pub via_server_id : Option String
  pub connections : List (String × Option ℕ)

pub record ObservationRow : Type 0 where
  pub id : String
  pub server_id : String
  pub source_kind : String
  pub network_scope : String
  pub observed_at : ℕ
  pub received_at : ℕ
  pub result : ObservationResult
  pub fresh_until : ℕ
  pub confidence : String
  pub metrics : Metrics
  pub error_code : Option String
  pub collection_run_id : Option String
  pub probe_report_id : Option String

pub record AdminNote : Type 0 where
  pub id : String
  pub server_id : Option String
  pub text : String
  pub status : String
  pub starts_at : ℕ
  pub expires_at : Option ℕ
  pub created_by_role : String
  pub created_at : ℕ
  pub updated_at : ℕ

pub record EventRow : Type 0 where
  pub id : String
  pub kind : String
  pub severity : String
  pub server_id : String
  pub transition_id : String
  pub title_key : String
  pub state : String
  pub occurred_at : ℕ
  pub visible_to : String
  pub created_at : ℕ

pub record AuditEntry : Type 0 where
  pub id : String
  pub actor_hash : String
  pub actor_role : String
  pub action : String
  pub target_type : String
  pub target_public_id : String
  pub result : String
  pub occurred_at : ℕ
  pub trace_id : String
  pub details : String

pub record ProductEvent : Type 0 where
  pub event_id : String
  pub name : String
  pub occurred_at : String
  pub received_at : ℕ
  pub session_id : String
  pub surface : String
  pub schema_version : ℕ
  pub properties : String
  pub expires_at : ℕ

pub record Server : Type 0 where
  pub id : String
  pub public_id : String
  pub type : String
  pub enabled : Bool
  pub display_order : ℕ
  pub created_at : ℕ
  pub updated_at : ℕ

pub record Protocol : Type 0 where
  pub id : String
  pub server_id : String
  pub kind : String
  pub label_key : String
  pub enabled : Bool
  pub coverage_state : String
  pub created_at : ℕ
  pub updated_at : ℕ

pub record Database : Type 0 where
  pub servers : List Server
  pub protocols : List Protocol
  pub sessions : List WebSession
  pub enrollments : List ProbeEnrollment
  pub probes : List Probe
  pub reports : List ProbeReport
  pub observations : List ObservationRow
  pub events : List EventRow
  pub notes : List AdminNote
  pub audit : List AuditEntry
  pub product_events : List ProductEvent
