-- ===== src/Alerts/Repository.antt =====
-- StateRepository. Its transaction is one function from the tables to the tables: SQLite makes it
-- atomic, and no statement of it can violate a constraint for a server that is in the database.
use vpn_pulse.Prelude.{
  ℕ, ◌+◌, ◌-◌, String, ◌<>◌, Bool, not, ◌&&◌, ◌||◌, Option, none, some, List, [], ◌∷◌, leb, is_some,
  if◌then◌else◌, map, ◌==◌, string_eq,
}
use vpn_pulse.Prelude.Lists.{find, nonempty}
use vpn_pulse.Prelude.Tables.{update_where, insert_or_ignore, upsert}
use vpn_pulse.Domain.Models.{State, unknown, state_eq, state_value, Evaluation}
use vpn_pulse.Alerts.Tables.{
  Destination, group, admin, destination_eq, Template, bot_recovered, template_eq, pending,
  superseded, queue_state_eq, Snapshot, Transition, Notification, Tables,
}
use vpn_pulse.Alerts.Policy.{flap_notice_after, is_quiet, notification_for}
use vpn_pulse.Alerts.Queries.{seconds, pending_admin_notices, dropped_notices, group_alerted}

-- What the code takes from Python: `str(uuid5(NAMESPACE_URL, name))`, and the text of an optional
-- instant inside an f-string.
pub record Naming : Type 0 where
  pub uuid5 : String → String
  pub iso : Option ℕ → String

pub record Change : Type 0 where
  pub scope_key : String
  pub server_id : String
  pub network_scope : String
  pub evaluation : Evaluation
  pub evaluated_at : ℕ

abbrev pub snapshot_of : Tables → String → Option Snapshot
snapshot_of db scope_key = find (λ (s : Snapshot). s.scope_key == scope_key) db.snapshots

abbrev pub state_before : Option Snapshot → State
state_before none = unknown
state_before (some s) = s.state

abbrev pub next_version : Option Snapshot → ℕ
next_version none = 1
next_version (some s) = s.version + 1

abbrev pub new_snapshot : Change → ℕ → Snapshot
new_snapshot c version =
    let e = c.evaluation in
    record {
      scope_key = c.scope_key;
      server_id = c.server_id;
      network_scope = c.network_scope;
      state = e.state;
      reason_code = e.reason_code;
      confidence = if leb e.coverage.den e.coverage.num then "sufficient" else "partial";
      observed_at = e.observed_at;
      evaluated_at = c.evaluated_at;
      fresh_until = e.fresh_until;
      evidence = record { count = e.evidence_count; coverage = e.coverage };
      version = version;
    }

-- ON CONFLICT(scope_key) DO UPDATE keeps the server, the protocol and the network scope.
unfoldable pub save_snapshot : Tables → Change → Tables
unfolding upsert find
save_snapshot db c =
    let new = new_snapshot c (next_version (snapshot_of db c.scope_key)) in
    record db {
      snapshots =
          upsert (λ (s : Snapshot). s.scope_key == c.scope_key)
            (λ s. record new { server_id = s.server_id; network_scope = s.network_scope }) new
            db.snapshots;
    }

abbrev pub by_id : String → Notification → Bool
by_id id q = q.id == id

-- UPDATE notification_queue SET state = 'superseded' WHERE id = ?
unfoldable pub mark_superseded : String → List Notification → List Notification
unfolding update_where
mark_superseded id queue = update_where (by_id id) (λ q. record q { state = superseded }) queue

-- The statement for each of the ids in turn.
unfoldable pub supersede_ids : List String → List Notification → List Notification
supersede_ids [] queue = queue
supersede_ids (id ∷ ids) queue = supersede_ids ids (mark_superseded id queue)

-- Whom to tell and when: the notice for an administrator may be dropped or held.
unfoldable pub hold :
    Tables
    → Change
    → ℕ
    → Bool
    → Option (Destination × Template)
    → Option (Destination × Template × ℕ)
unfolding dropped_notices
hold db c quiet had_waiting none = none
hold db c quiet had_waiting (some (group, template)) = some (group, template, c.evaluated_at)
hold db c quiet had_waiting (some (admin, template)) =
    if template == bot_recovered && had_waiting
    then none
    else some (
      admin,
      template,
      if is_quiet template
            && not (
                leb flap_notice_after
                  (dropped_notices db c.scope_key (c.evaluated_at - seconds 3600)))
          then c.evaluated_at + seconds quiet
          else c.evaluated_at,
    )

module _ (names : Naming) where
  abbrev pub dedupe_key : Change → State → String
  dedupe_key c previous = names.uuid5 (
      c.scope_key
      <> ":"
      <> state_value previous
      <> ":"
      <> state_value c.evaluation.state
      <> ":"
      <> names.iso c.evaluation.observed_at)

  abbrev pub transition_id : Change → State → String
  transition_id c previous = names.uuid5 ("transition:" <> dedupe_key c previous)

  abbrev pub notification_id : Change → State → String
  notification_id c previous = names.uuid5 ("notification:" <> dedupe_key c previous)

  abbrev pub new_transition : Change → State → Transition
  new_transition c previous =
      let e = c.evaluation in
      record {
        id = transition_id c previous;
        scope_key = c.scope_key;
        from_state = previous;
        to_state = e.state;
        reason_code = e.reason_code;
        opened_at = c.evaluated_at;
        confirmed_at = c.evaluated_at;
        closed_at = none;
        dedupe_key = dedupe_key c previous;
        evidence = record { count = e.evidence_count; coverage = e.coverage };
      }

  -- The transition is inserted, and the other open ones of the scope are closed.
  unfoldable pub record_transition : Tables → Change → State → Tables
  unfolding insert_or_ignore update_where
  record_transition db c previous =
      let new = new_transition c previous in
      record db {
        transitions =
            update_where
              (λ (t : Transition).
                t.scope_key == c.scope_key && not (is_some t.closed_at) && not (t.id == new.id))
              (λ t. record t { closed_at = some c.evaluated_at })
              (insert_or_ignore
                (λ (t : Transition). t.id == new.id || t.dedupe_key == new.dedupe_key) new
                db.transitions);
      }

  abbrev pub new_notification : Change → State → Destination → Template → ℕ → Notification
  new_notification c previous destination template send_at = record {
    id = notification_id c previous;
    transition_id = transition_id c previous;
    destination = destination;
    template = template;
    params = record {
      server_id = c.server_id;
      scope_key = c.scope_key;
      state = c.evaluation.state;
      from_state = previous;
    };
    state = pending;
    attempts = 0;
    next_attempt_at = send_at;
    locked_until = none;
    sent_at = none;
    last_error_code = none;
    dedupe_key = dedupe_key c previous;
    created_at = c.evaluated_at;
  }

  unfoldable pub enqueue : Tables → Change → State → Option (Destination × Template × ℕ) → Tables
  enqueue db c previous none = db
  enqueue db c previous (some (destination, template, send_at)) =
      let new = new_notification c previous destination template send_at in
      record db {
        queue =
            insert_or_ignore
              (λ (q : Notification). q.id == new.id || q.dedupe_key == new.dedupe_key) new db.queue;
      }

  -- The branch `if evaluation.state != previous_state`.
  unfoldable pub announce : Tables → Change → State → ℕ → Tables
  announce db c previous quiet =
      let opened = record_transition db c previous in
      let waiting = pending_admin_notices opened c.scope_key in
      let cleared = record opened {
        queue = supersede_ids (map (λ (q : Notification). q.id) waiting) opened.queue;
      } in
      enqueue cleared c previous (
        hold cleared c quiet (nonempty waiting)
          (notification_for previous c.evaluation.state (group_alerted cleared c.scope_key)))

  unfoldable pub save_evaluation : ℕ → Tables → Change → Tables × Option String
  save_evaluation quiet db c =
      let previous = state_before (snapshot_of db c.scope_key) in
      let saved = save_snapshot db c in
      if c.evaluation.state == previous
      then (saved, none)
      else (announce saved c previous quiet, some (transition_id c previous))
