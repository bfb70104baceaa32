-- ===== src/Tests/Serving.antt =====
-- Requests to the API, the bot and the migrations.
use vpn_pulse.Api.Routes.{enrollment_at}
use vpn_pulse.Api.Routes.Enrolment.{IsEnrolled}
use vpn_pulse.Prelude.{leb}
use vpn_pulse.Store.Sessions.{create_session}
use vpn_pulse.Migrations.{checksum_of}
use vpn_pulse.Prelude.Texts.{text_leb}
use vpn_pulse.Api.Analytics.{accept_events}
use vpn_pulse.Api.Guards.{strip_prefix}
use vpn_pulse.Api.Routes.Admission.{refusal}
use vpn_pulse.Prelude.Lists.{find}
use vpn_pulse.Store.Sessions.{get_session}
use vpn_pulse.Api.Routes.Admission.{is_admin}
use vpn_pulse.Prelude.{option_eq}
use vpn_pulse.Access.Membership.{ask}
use vpn_pulse.Access.Membership.{cached_for}
use vpn_pulse.Access.Membership.{is_fresh}
use vpn_pulse.Prelude.{
  ℕ, ◌+◌, ◌-◌, ◌*◌, ◌≤◌, String, Bool, true, false, ◌≡◌, refl, none, some, List, [], ◌∷◌, ◌++◌, map,
  string_eq, nat_eq, arith,
}
use vpn_pulse.Prelude.Lists.{select, any}
use vpn_pulse.Clock.{seconds}
use vpn_pulse.Store.Tables.{Database}
use vpn_pulse.Store.Sessions.{Session}
use vpn_pulse.Store.Probes.{ServerConfig}
use vpn_pulse.Access.Membership.{Answer, payload, failed, role_for}
use vpn_pulse.Access.Membership.Kept.{after_calls, role_for_again}
use vpn_pulse.Api.Limiter.{token, Bucket, refill, is_allowed, spend, retry_after}
use vpn_pulse.Api.Limiter.Wait.{retry_after-is_allowed}
use vpn_pulse.Api.Limiter.Rate.{granted, granted_bound}
use vpn_pulse.Api.Analytics.{Event, event_row, accept_batch}
use vpn_pulse.Api.Analytics.Retry.{accept_batch_again}
use vpn_pulse.Api.Routes.{ReadModel, problem_details, Drawn, App, probes_at, enroll_at}
use vpn_pulse.Api.Routes.Serve.{serve}
use vpn_pulse.Api.Routes.Admission.{under_admin, is_admin, refusal}
use vpn_pulse.Api.Guards.{Incoming}
use vpn_pulse.Api.Handle.{handle}
use vpn_pulse.Api.Handle.Refused.{IsRefusal, handle-under_admin}
use vpn_pulse.Api.Routes.Enrolment.{coded, enroll_at-probe_config_at, enroll_at-abroad}
use vpn_pulse.Migrations.{File, Schema, done, apply_migrations}
use vpn_pulse.Migrations.Again.{apply_migrations_again}
use vpn_pulse.Bot.{Update, Messenger, Bot, poll_once, replied, is_command}
use vpn_pulse.Bot.Polling.{reached, poll_once-next}
use vpn_pulse.Tests.Rows.{settings, empty}
use vpn_pulse.Tests.Signing.{telegram}
use vpn_pulse.Tests.Reporting.{hashing}

abbrev yes_member : Answer
yes_member = payload true (some "member") false

role_for_again_example :
    role_for (1 ∷ []) 600 15 failed 7 (
      after_calls
        (1 ∷ [])
        600
        ((12, 8, yes_member) ∷ [])
        (role_for (1 ∷ []) 600 10 yes_member 7 []).1)
    ≡ (
      some "member",
      after_calls
          (1 ∷ [])
          600
          ((12, 8, yes_member) ∷ [])
          (role_for (1 ∷ []) 600 10 yes_member 7 []).1,
    )
unfolding nat_eq is_fresh cached_for ask option_eq string_eq
role_for_again_example =
    role_for_again (1 ∷ []) 600 10 15 7 yes_member failed (some "member") ((12, 8, yes_member) ∷ [])
      [] refl refl refl refl (omega arith)

abbrev spent : Bucket
spent = record { tokens = 0; updated = 0 }

retry_after-is_allowed_example : is_allowed (refill 20 3001000 (some (spend spent))) ≡ true
unfolding retry_after
retry_after-is_allowed_example =
    retry_after-is_allowed 20 3001000 spent (omega arith) refl (omega arith)

abbrev requests : List (ℕ × ℕ)
requests = (7, 0) ∷ (7, 1000000) ∷ (8, 1000000) ∷ (7, 2000000) ∷ []

granted_bound_example :
    granted 10 (λ (k : ℕ). 2) 7 requests [] * token ≤ 2 * token + (2000000 - 0) * 2
granted_bound_example =
    granted_bound 10 (λ (k : ℕ). 2) 7 requests 0 2000000
      (omega arith, (omega arith, (omega arith, (omega arith, omega arith)))) (omega arith)

abbrev fixed : ReadModel String
fixed = record {
  status = λ role lang. role;
  server = λ id role lang. none;
  metrics = λ id period. none;
  events = λ filter cursor limit role lang. filter;
  help = λ lang. lang;
  admin_server = λ id lang. none;
  admin_probes = [];
  probe_id = λ view. view;
  probe_view = λ probe. "probe";
  admin_overview = λ lang. lang;
  revoke_probe = λ id. false;
}

abbrev configured : List ServerConfig
configured = record { id = "de"; type = "awg-host"; enabled = true } ∷ []

abbrev app : App String
app = record {
  settings = settings;
  telegram = telegram;
  sign_in_max_age = seconds 300;
  hashing = hashing;
  read_model = fixed;
  valid_event = λ event. true;
  servers = configured;
}

abbrev drawn : String → Drawn
drawn secret = record {
  secret = secret;
  public_id = "pc-1";
  prefix = "tok";
  row_id = "row";
  audit_id = "audit";
  trace_id = "trace";
}

abbrev incoming : Incoming
incoming = record {
  method = "GET";
  path = "/api/v1/admin/probes";
  origin = none;
  expected = "https://vpn.example";
  content_length = none;
  body_length = 0;
  peer = none;
  forwarded = "";
}

handle-under_admin_example :
    let (db', answer, _) =
      handle
        (λ path address. path)
        app
        (drawn "x")
        5
        (some "stolen")
        none
        "en"
        empty
        true
        incoming
        (some probes_at)
        [] in
    ◌≡◌ {A = Database} db' empty
    × IsRefusal {View = String} (problem_details 401 "SESSION_EXPIRED") answer
unfolding under_admin is_admin get_session string_eq find refusal
handle-under_admin_example =
    handle-under_admin (λ path address. path) app (drawn "x") 5 (some "stolen") none "en" empty true
      incoming (some probes_at) [] refl refl

abbrev admin : Session
admin = record {
  token = "admin";
  identity = record { telegram_user_id = 0; role = "admin" };
  expires_at = 100;
}

-- The administrator has signed in.
abbrev signed : Database
signed = (create_session settings empty admin.identity "admin" 1).0

abbrev its_session : Session
its_session = (create_session settings empty admin.identity "admin" 1).1

enroll_at-probe_config_at_example :
    IsEnrolled app
      (drawn "code")
      (drawn "token")
      its_session
      signed
      none
      none
      "en"
      "pc"
      ("report_pc" ∷ [])
      "1.0"
      "Bearer token"
      5
      9
      20
      (serve app
        (drawn "code")
        5
        (some "admin")
        none
        "en"
        signed
        (enrollment_at "pc" ("report_pc" ∷ [])))
unfolding get_session string_eq find create_session any strip_prefix nat_eq
enroll_at-probe_config_at_example =
    enroll_at-probe_config_at app (drawn "code") (drawn "token") its_session signed none none "en"
      (some "admin") "pc" "1.0" "Bearer token" ("report_pc" ∷ []) 5 9 20 refl refl refl refl refl
      (omega arith) refl refl

enroll_at-abroad_example :
    let (db', answer) =
      serve app
        (drawn "token")
        9
        none
        none
        "en"
        (coded app (drawn "code") 5 "abroad" ("report_abroad" ∷ []) empty admin)
        (enroll_at "code" "1.0") in
    (answer ≡ problem_details 400 "ABROAD_VIA_REQUIRED")
    × ((serve app (drawn "token") 12 none none "en" db' (enroll_at "code" "1.1")).1
        ≡ problem_details 401 "ENROLLMENT_INVALID")
unfolding any
enroll_at-abroad_example =
    enroll_at-abroad app (drawn "code") (drawn "token") admin empty none none "en" "1.0" "1.1"
      ("report_abroad" ∷ []) 5 9 12 refl (omega arith)

abbrev opened : Event
opened = record {
  event_id = "e1";
  name = "app_opened";
  occurred_at = "2026-01-01T00:00:00Z";
  session_id = "s";
  surface = "miniapp";
  schema_version = 1;
  properties = "{}";
}

abbrev with_event : Database
with_event = record empty { product_events = event_row 30 5 opened ∷ [] }

accepted_once : accept_batch (λ event. true) 30 5 (opened ∷ []) empty ≡ some (with_event, 1)
unfolding accept_batch accept_events
accepted_once = refl

accept_batch_again_example :
    accept_batch (λ event. true) 30 9 (opened ∷ []) with_event ≡ some (with_event, 0)
accept_batch_again_example =
    accept_batch_again (λ event. true) 30 5 9 (opened ∷ []) empty with_event 1 accepted_once

abbrev log_script : String → List String → List String × Bool
log_script sql log = (log ++ sql ∷ [], true)

abbrev files : List File
files =
    record { name = "0002_more.sql"; version = 2; sql = "b" }
    ∷ record { name = "0001_initial.sql"; version = 1; sql = "a" }
    ∷ []

abbrev migrated : Schema (List String)
migrated =
    (apply_migrations (λ sql. sql) log_script files (record { content = []; migrations = [] })).1

apply_migrations_again_example :
    apply_migrations (λ sql. sql) log_script files migrated ≡ (done, migrated)
unfolding apply_migrations text_leb checksum_of nat_eq
apply_migrations_again_example =
    apply_migrations_again (λ sql. sql) log_script files (record { content = []; migrations = [] })
      refl

abbrev messenger : Messenger
messenger = record { command_of = λ text. text; is_sent = λ chat. true }

abbrev update : ℕ → String → Update
update id text = record { update_id = id; chat_type = some "private"; chat_id = 40; text = text }

abbrev idle : Bot
idle = record { offset = none; addressed = [] }

abbrev get_updates : ℕ → List Update → List Update
get_updates offset = select (λ (u : Update). leb offset u.update_id)

poll_once-next_example :
    let (next, polled) = poll_once messenger idle (some (update 5 "/start" ∷ update 6 "hi" ∷ [])) in
    ((offset : ℕ) × (next.offset ≡ some offset)
      × (get_updates offset (update 5 "/start" ∷ update 6 "hi" ∷ update 9 "/help" ∷ [])
          ≡ update 9 "/help" ∷ []))
    × (next.addressed
        ≡ []
          ++ map
              (λ (v : Update). v.chat_id)
              (select (is_command messenger) (update 5 "/start" ∷ update 6 "hi" ∷ [])))
    × (polled ≡ replied (reached messenger (update 5 "/start" ∷ update 6 "hi" ∷ [])))
poll_once-next_example =
    poll_once-next messenger get_updates idle (update 5 "/start") (update 6 "hi" ∷ [])
      (update 9 "/help" ∷ []) (λ offset held. refl) (omega arith, (omega arith, (omega arith, tt)))
