-- ===== src/Api/Routes/Serve.antt =====
-- vpnpulse/api/app.py: the handlers of the routes, one function for each.
use vpn_pulse.Prelude.{
  ℕ, String, Bool, false, not, ◌&&◌, ◌||◌, Option, none, some, List, [], ◌++◌, map, leb,
  if◌then◌else◌, ◌==◌, string_eq,
}
use vpn_pulse.Prelude.Lists.{any, select}
use vpn_pulse.Store.Tables.{Database}
use vpn_pulse.Store.Sessions.{Session, create_session, revoke_session}
use vpn_pulse.Store.Enrollments.{Enrollment, create_enrollment, consume_enrollment}
use vpn_pulse.Store.Probes.{
  ProbeSummary, ServerConfig, register_probe, list_probes, revoke_probe, probe_targets,
}
use vpn_pulse.Store.Notes.{put_note, delete_note}
use vpn_pulse.Store.Reports.{Accepted, stored, conflict, accept_report}
use vpn_pulse.Store.Retention.{audit}
use vpn_pulse.Access.{SignIn, refused, signed_in, crashed, validate_telegram_init_data}
use vpn_pulse.Api.Guards.{require_session, require_probe}
use vpn_pulse.Api.Analytics.{accept_batch}
use vpn_pulse.Api.Routes.{
  nothing, view, views, cookie, session_info, code, note, enrolled, config, report, accepted_events,
  Response, reply, problem_details, Drawn, Route, create_session_at, current_session,
  delete_session, status_at, help_at, overview_at, probes_at, server_at, admin_server_at,
  metrics_at, events_at, enrollment_at, revoke_at, put_note_at, delete_note_at, enroll_at,
  probe_config_at, report_at, analytics_at, error_code, error_status, or_404, is_given, App,
  guarded, is_unseen,
}

module _ {View : Type 0} (app : App View) (drawn : Drawn) (now : ℕ) where
  -- `store.audit` as the routes call it.
  unfoldable pub audited : Session → String → String → String → String → Database → Database
  audited session action target_type target_id details db =
      audit app.settings db session.token "admin" action target_type target_id "ok" details
        drawn.audit_id drawn.trace_id now

  unfoldable pub open_session : Database → SignIn → Database × Response View
  open_session db (refused e) = (db, problem_details (error_status e) (error_code e))
  -- an exception that no handler takes: "Internal Server Error"
  open_session db crashed = (db, reply 500 nothing)
  open_session db (signed_in identity) =
      let (db', session) = create_session app.settings db identity drawn.secret now in
      (db', reply 204 (cookie session))

  unfoldable pub read_metrics : String → String → Response View
  read_metrics server_id period =
      if period == "24h" || period == "7d"
      then or_404 (app.read_model.metrics server_id period)
      else problem_details 400 "PERIOD_INVALID"

  unfoldable pub read_events : String → Option String → ℕ → Session → String → Response View
  read_events filter cursor limit session lang =
      if (filter == "all" || filter == "problems" || filter == "notes")
        && (leb 1 limit && leb limit 100)
      then reply 200 (view (app.read_model.events filter cursor limit session.identity.role lang))
      else problem_details 400 "EVENT_QUERY_INVALID"

  unfoldable pub all_probes : Database → List View
  unfolding select
  all_probes db =
      let listed = app.read_model.admin_probes in
      listed
      ++ map app.read_model.probe_view
          (select (is_unseen (map app.read_model.probe_id listed)) (list_probes db))

  unfoldable pub make_enrollment :
      String → List String → Database → Session → Database × Response View
  make_enrollment kind capabilities db session =
      let (db', secret, expires_at) =
        create_enrollment app.settings db kind capabilities session.token none drawn.secret now in
      (
        audited session "probe.enroll_code" "probe" kind "{}" db',
        reply 201 (code secret expires_at),
      )

  unfoldable pub answer_revoke : String → Session → Database × Bool → Database × Response View
  answer_revoke public_id session (db, revoked) =
      if revoked || app.read_model.revoke_probe public_id
      then (audited session "probe.revoke" "probe" public_id "{}" db, reply 204 nothing)
      else (db, problem_details 404 "PROBE_NOT_FOUND")

  abbrev pub is_server : Option String → Bool
  is_server none = false
  is_server (some id) = any (λ (c : ServerConfig). c.id == id) app.servers

  unfoldable pub write_note :
      Option String → String → Option ℕ → String → Database → Session → Database × Response View
  unfolding any
  write_note server_id text expires_at details db session =
      if is_given server_id && not (is_server server_id)
      then (db, problem_details 404 "SERVER_NOT_FOUND")
      else (let (db', note') = put_note db drawn.row_id text expires_at server_id "admin" now in
          (audited session "note.put" "note" note'.id details db', reply 200 (note note')))

  unfoldable pub remove_note : Database → Session → Database × Response View
  remove_note db session =
      let (db', deleted) = delete_note db now in
      (audited session "note.delete" "note" "active" "{}" db', reply 204 nothing)

  -- `store.probe_config(probe["kind"], probe.get("via_server_id"))`
  unfoldable pub targets_of : Option ProbeSummary → List (String × List String)
  targets_of none = []
  targets_of (some p) = probe_targets app.servers p.kind p.via_server_id

  -- The answer to a code that was looked up, on the database in which it is used.
  unfoldable pub answer_enroll : String → Database × Option Enrollment → Database × Response View
  answer_enroll agent_version (db, none) = (db, problem_details 401 "ENROLLMENT_INVALID")
  answer_enroll agent_version (db, some e) =
      if e.kind == "abroad" && not (is_given e.via_server_id)
      then (db, problem_details 400 "ABROAD_VIA_REQUIRED")
      else (let (db', token, probe) =
            register_probe app.settings db e.kind e.capabilities agent_version e.via_server_id
              drawn.public_id drawn.secret drawn.prefix now in
          (db', reply 201 (enrolled token probe (targets_of probe))))

  unfoldable pub answer_report : String → Database × Accepted → Database × Response View
  answer_report report_id (db, stored duplicate written) =
      (db, reply 202 (report report_id duplicate))
  answer_report report_id (db, conflict) = (db, problem_details 409 "REPORT_ID_CONFLICT")

  unfoldable pub answer_batch : Database → Option (Database × ℕ) → Database × Response View
  answer_batch db none = (db, problem_details 400 "ANALYTICS_EVENT_INVALID")
  answer_batch db (some (db', accepted)) = (db', reply 202 (accepted_events accepted))

  module _ (token authorization : Option String) (lang : String) (db : Database) where
    abbrev pub for_member : (Session → Database × Response View) → Database × Response View
    for_member = guarded db (require_session app.settings db none token now)

    abbrev pub for_admin : (Session → Database × Response View) → Database × Response View
    for_admin = guarded db (require_session app.settings db (some "admin") token now)

    abbrev pub for_probe : (ProbeSummary → Database × Response View) → Database × Response View
    for_probe = guarded db (require_probe app.settings db authorization)

    unfoldable pub serve : Route → Database × Response View
    unfolding guarded open_session read_metrics read_events all_probes make_enrollment answer_revoke
        write_note remove_note answer_enroll answer_report answer_batch
    serve (create_session_at init_data) =
        open_session db (validate_telegram_init_data app.telegram app.sign_in_max_age now init_data)
    serve current_session =
        for_member (λ s. (db, reply 200 (session_info s.identity.role s.expires_at)))
    serve delete_session = (revoke_session app.settings db token now, reply 204 nothing)
    serve status_at =
        for_member (λ s. (db, reply 200 (view (app.read_model.status s.identity.role lang))))
    serve (server_at id) =
        for_member (λ s. (db, or_404 (app.read_model.server id s.identity.role lang)))
    serve (metrics_at id period) = for_member (λ s. (db, read_metrics id period))
    serve (events_at filter cursor limit) =
        for_member (λ s. (db, read_events filter cursor limit s lang))
    serve help_at = for_member (λ s. (db, reply 200 (view (app.read_model.help lang))))
    serve (admin_server_at id) = for_admin (λ s. (db, or_404 (app.read_model.admin_server id lang)))
    serve probes_at = for_admin (λ s. (db, reply 200 (views (all_probes db))))
    serve overview_at = for_admin (λ s. (db, reply 200 (view (app.read_model.admin_overview lang))))
    serve (enrollment_at kind capabilities) = for_admin (make_enrollment kind capabilities db)
    serve (revoke_at id) = for_admin (λ s. answer_revoke id s (revoke_probe db id now))
    serve (put_note_at server_id text expires_at details) =
        for_admin (write_note server_id text expires_at details db)
    serve delete_note_at = for_admin (remove_note db)
    serve (enroll_at secret agent_version) =
        answer_enroll agent_version (consume_enrollment app.settings db secret now)
    serve probe_config_at = for_probe (λ p. (db, reply 200 (config (targets_of (some p)))))
    serve (report_at payload) = for_probe (λ p.
        answer_report payload.report_id (accept_report app.settings app.hashing p payload now db))
    serve (analytics_at events) = for_member (λ s.
        answer_batch db
          (accept_batch app.valid_event app.settings.analytics_raw_days now events db))
