-- ===== src/Reading/Overview.antt =====
-- storage/read_model.py, `admin_overview`.
pub mod Health
use vpn_pulse.Prelude.{
  ℕ, ◌+◌, ◌-◌, ◌*◌, ◌/◌, ◌%◌, String, ◌<>◌, Bool, true, false, not, ◌&&◌, ◌||◌, Option, none, some,
  List, [], ◌∷◌, ◌++◌, map, ltb, leb, is_some, if◌then◌else◌, ◌==◌, string_eq, nat_eq,
}
use vpn_pulse.Prelude.Lists.{select, any, nonempty, take}
use vpn_pulse.Prelude.Sorting.{sort, by_key}
use vpn_pulse.Prelude.Tables.{count_where}
use vpn_pulse.Clock.{second, seconds, text_le}
use vpn_pulse.Store.Tables.{Probe, ProbeReport, ObservationRow, Database}
use vpn_pulse.Store.Probes.{latest_report, route_of, network_of}
use vpn_pulse.Alerts.Tables.{Notification, pending, queue_state_eq}
use vpn_pulse.Alerts.Tables
use vpn_pulse.Pipeline.Tables.{RunResult, ok, CollectionRun, State}
use vpn_pulse.Reading.Evidence.{latest_of}
use vpn_pulse.Reading.Cards.{Words, ServerEntry, text, servers_config, first_chars}
use vpn_pulse.Reading.Admin.{AdminProbe, admin_probes}
use vpn_pulse.Reading.Readiness.{last_run, is_recent}

pub data Severity : Type 0 where
  high medium low : Severity

-- SEVERITY_ORDER
unfoldable pub urgency : Severity → ℕ
urgency high = 0
urgency medium = 1
urgency low = 2

-- An entry of `attention` in the payload of a collector.
pub record Attention : Type 0 where
  pub severity : Severity
  pub code : String
  pub message : Words

pub record Item : Type 0 where
  pub severity : Severity
  pub code : String
  pub message : String
  pub server_id : Option String

pub data CheckState : Type 0 where
  warn fail : CheckState

pub record DoctorItem : Type 0 where
  pub check : String
  pub state : CheckState
  pub next : String
  pub command : String

pub data Verdict : Type 0 where
  healthy warned failed : Verdict

pub record Overview : Type 0 where
  pub attention_items : List Item
  pub result : Verdict
  pub doctor_items : List DoctorItem
  pub next_command : Option String

-- `self.i18n` in the caller's language: a text, the one that names a silent probe and how long it
-- was silent, and the one with a number; and the list that a collector's payload holds.
pub record Texts : Type 0 where
  pub lang : String
  pub t : String → String
  pub probe_silent : String → Option ℕ → String
  pub queue_stuck : ℕ → String
  pub attention : ObservationRow → List Attention

abbrev pub item_of : Texts → String → Attention → Item
item_of texts server_id a = record {
  severity = a.severity;
  code = a.code;
  message = first_chars 240 (text a.message texts.lang);
  server_id = some server_id;
}

abbrev pub attention_of : Texts → Option ObservationRow → List Attention
attention_of texts none = []
attention_of texts (some row) = texts.attention row

unfoldable pub attention_items : Texts → Database → List ServerEntry → List Item
unfolding latest_of text first_chars
attention_items texts db [] = []
attention_items texts db (cfg ∷ servers) =
    map (item_of texts cfg.id) (attention_of texts (latest_of db cfg.id "collector"))
    ++ attention_items texts db servers

abbrev pub doctor : String → CheckState → String → String → DoctorItem
doctor check state next command = record {
  check = check;
  state = state;
  next = next;
  command = command;
}

abbrev pub general : Severity → String → String → Item
general severity code message = record {
  severity = severity;
  code = code;
  message = message;
  server_id = none;
}

-- `_minutes`, of an instant that is given.
abbrev pub minutes_since : ℕ → Option ℕ → Option ℕ
minutes_since now none = none
minutes_since now (some t) = some ((now - t) / (60 * second))

abbrev pub is_quiet : AdminProbe → Bool
is_quiet p = p.status == "stale" || p.status == "stopped"

unfoldable pub servers_check : Texts → List ServerEntry → List DoctorItem
servers_check texts [] =
    doctor "servers" fail (texts.t "doctor.servers.fail") "vpn-pulse server add" ∷ []
servers_check texts (c ∷ servers) = []

unfoldable pub probes_check : Texts → ℕ → Bool → List AdminProbe → List Item × List DoctorItem
unfolding select
probes_check texts now has_servers [] = (
  general medium "PROBES_NOT_ENROLLED" (texts.t "attention.probesNotEnrolled") ∷ [],
  doctor "probes" warn
        (texts.t (if has_servers then "doctor.probes.enroll" else "doctor.probes.afterServer"))
        "vpn-pulse probe enroll pc"
      ∷ [],
)
probes_check texts now has_servers (p ∷ probes) =
    let silent = select is_quiet (p ∷ probes) in
    (
      map
          (λ (q : AdminProbe). general medium "PROBE_SILENT" (
            texts.probe_silent (texts.t ("admin.probe." <> q.kind))
              (minutes_since now q.last_seen_at)))
          silent,
      (if nonempty silent
          then doctor "probes" warn (texts.t "doctor.probes.silent") "vpn-pulse doctor probes" ∷ []
          else []),
    )

unfoldable pub collector_check :
    Texts → ℕ → ℕ → Bool → Option CollectionRun → List Item × List DoctorItem
unfolding is_recent
collector_check texts interval now false run = ([], [])
collector_check texts interval now true none = (
  general high "COLLECTOR_STALE" (texts.t "attention.collectorStale") ∷ [],
  doctor "collector" fail (texts.t "doctor.collector.fail") "vpn-pulse doctor collector" ∷ [],
)
collector_check texts interval now true (some r) = if is_recent interval now r then ([], []) else (
  general high "COLLECTOR_STALE" (texts.t "attention.collectorStale") ∷ [],
  doctor "collector" warn (texts.t "doctor.collector.stale") "vpn-pulse doctor collector" ∷ [],
)

-- `next_attempt_at < ?`: the column's texts end in "+00:00", that of the argument in "Z".
unfoldable pub column_before : ℕ → ℕ → Bool
column_before a b =
    ltb (a / second) (b / second)
    || (a / second == b / second
        && (a % second == 0 || (b % second == 0 || leb (a % second) (b % second))))

unfoldable pub stuck_count : Tables.Tables → ℕ → ℕ
unfolding count_where column_before
stuck_count alerts now =
    count_where
      (λ (q : Notification).
        q.state == pending && column_before q.next_attempt_at (now - seconds 600))
      alerts.queue

unfoldable pub queue_check : Texts → ℕ → List DoctorItem
queue_check texts stuck =
    if stuck == 0
    then []
    else doctor "queue" warn (texts.queue_stuck stuck) "vpn-pulse doctor queue" ∷ []

abbrev pub has_failed : DoctorItem → Bool
has_failed d = elim d.state [ fail ↦ true | warn ↦ false ]

unfoldable pub verdict_of : List DoctorItem → Verdict
unfolding any
verdict_of items =
    if any has_failed items then failed else if nonempty items then warned else healthy

abbrev pub first_command : List DoctorItem → Option String
first_command [] = none
first_command (d ∷ items) = some d.command

module _ (texts : Texts) (silent_after interval : ℕ) (config : List ServerEntry) where
  unfoldable pub admin_overview : State → ℕ → Overview
  unfolding attention_items servers_check probes_check collector_check queue_check verdict_of
      urgency stuck_count last_run admin_probes sort
  admin_overview st now =
      let servers = servers_config config in
      let (probe_items, probe_checks) =
        probes_check texts now (nonempty servers) (admin_probes silent_after st.db now) in
      let (run_items, run_checks) =
        collector_check texts interval now (nonempty servers) (last_run none st.runs) in
      let items = attention_items texts st.db servers ++ probe_items ++ run_items in
      let checks =
        servers_check texts servers
        ++ probe_checks
        ++ run_checks
        ++ queue_check texts (stuck_count st.alerts now) in
      record {
        attention_items = take 100 (sort (by_key (λ (i : Item). urgency i.severity)) items);
        result = verdict_of checks;
        doctor_items = take 20 checks;
        next_command = first_command checks;
      }
