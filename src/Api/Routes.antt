-- ===== src/Api/Routes.antt =====
-- vpnpulse/api/app.py: the routes. A request has passed the schema of its body; the read model is
-- what the protocol `ReadModel` of api/read_model.py promises, with `View` for its JSON objects.
pub mod Serve
pub mod Admission
pub mod Enrolment
use vpn_pulse.Prelude.{
  ℕ, ◌+◌, String, Bool, true, false, not, ◌&&◌, ◌||◌, Option, none, some, List, [], ◌∷◌, ◌++◌, map,
  leb, contains, if◌then◌else◌, ◌==◌, string_eq,
}
use vpn_pulse.Prelude.Lists.{any}
use vpn_pulse.Store.Tables.{Settings, Database}
use vpn_pulse.Store.Sessions.{Identity, Session, create_session, revoke_session}
use vpn_pulse.Store.Enrollments.{Enrollment, create_enrollment, consume_enrollment}
use vpn_pulse.Store.Probes.{
  ProbeSummary, ServerConfig, register_probe, list_probes, revoke_probe, probe_targets,
}
use vpn_pulse.Store.Notes.{NoteView, put_note, delete_note}
use vpn_pulse.Store.Reports.{Payload, Hashing, Accepted, stored, conflict, accept_report}
use vpn_pulse.Store.Retention.{audit}
use vpn_pulse.Access.{
  Telegram, AuthError, malformed, hash_missing, invalid, expired, membership_required, SignIn,
  refused, signed_in, validate_telegram_init_data,
}
use vpn_pulse.Api.Guards.{Checked, passed, problem, require_session, require_probe}
use vpn_pulse.Api.Analytics.{Event, accept_batch}

pub record ReadModel (View : Type 0) : Type 0 where
  pub status : String → String → View
  pub server : String → String → String → Option View
  pub metrics : String → String → Option View
  pub events : String → Option String → ℕ → String → String → View
  pub help : String → View
  pub admin_server : String → String → Option View
  pub admin_probes : List View
  pub probe_id : View → String
  pub probe_view : Option ProbeSummary → View
  pub admin_overview : String → View
  -- `getattr(read_model, "revoke_probe", None)`
  pub revoke_probe : String → Bool

pub data Body (View : Type 0) : Type 0 where
  nothing : Body View
  view : View → Body View
  views : List View → Body View
  cookie : Session → Body View
  session_info : String → ℕ → Body View
  code : String → ℕ → Body View
  note : NoteView → Body View
  enrolled : String → Option ProbeSummary → List (String × List String) → Body View
  config : List (String × List String) → Body View
  report : String → Bool → Body View
  accepted_events : ℕ → Body View

pub data Response (View : Type 0) : Type 0 where
  reply : ℕ → Body View → Response View
  problem_details : ℕ → String → Response View

-- What the process draws at random for a request, and the trace id.
pub record Drawn : Type 0 where
  pub secret : String
  pub public_id : String
  pub prefix : String
  pub row_id : String
  pub audit_id : String
  pub trace_id : String

pub data Route : Type 0 where
  create_session_at : String → Route
  current_session delete_session : Route
  status_at help_at overview_at probes_at : Route
  server_at admin_server_at : String → Route
  metrics_at : String → String → Route
  events_at : String → Option String → ℕ → Route
  enrollment_at : String → List String → Route
  revoke_at : String → Route
  put_note_at : Option String → String → Option ℕ → String → Route
  delete_note_at : Route
  enroll_at : String → String → Route
  probe_config_at : Route
  report_at : Payload → Route
  analytics_at : List Event → Route

-- The code of a problem is the text of the error.
unfoldable pub error_code : AuthError → String
error_code malformed = "AUTH_MALFORMED"
error_code hash_missing = "AUTH_HASH_MISSING"
error_code invalid = "AUTH_INVALID"
error_code expired = "AUTH_EXPIRED"
error_code membership_required = "MEMBERSHIP_REQUIRED"

abbrev pub error_status : AuthError → ℕ
error_status membership_required = 403
error_status _ = 401

abbrev pub or_404 : {View : Type 0} → Option View → Response View
or_404 none = problem_details 404 "SERVER_NOT_FOUND"
or_404 (some v) = reply 200 (view v)

-- `probe.get("via_server_id")` as a test.
abbrev pub is_given : Option String → Bool
is_given none = false
is_given (some t) = not (t == "")

-- What `create_app` is given, with the functions of other components that the routes call.
pub record App (View : Type 0) : Type 1 where
  pub settings : Settings
  pub telegram : Telegram
  pub sign_in_max_age : ℕ
  pub hashing : Hashing
  pub read_model : ReadModel View
  pub valid_event : Event → Bool
  pub servers : List ServerConfig

-- A route goes on when its guard passed; the problem of the guard answers the request.
unfoldable pub guarded :
    {A View : Type 0}
    → Database
    → Checked A
    → (A → Database × Response View)
    → Database × Response View
guarded db (passed a) route = route a
guarded db (problem status problem_code) route = (db, problem_details status problem_code)

-- The summaries of the store that the read model did not list.
unfoldable pub is_unseen : List String → Option ProbeSummary → Bool
is_unseen seen none = false
is_unseen seen (some p) = not (contains seen p.id)
