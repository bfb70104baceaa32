-- ===== src/Tests/Messages.antt =====
-- The transitions and the messages of a server that goes down and recovers.
use vpn_pulse.Domain.Models.{state_value}
use vpn_pulse.Prelude.{
  ℕ, ◌+◌, String, true, false, ◌≡◌, refl, ◌↔◌, ◌⊎◌, Option, none, some, [], ◌∷◌, if◌then◌else◌,
  ◌==◌, string_eq, arith,
}
use vpn_pulse.Prelude.Lists.{any, find, length}
use vpn_pulse.Domain.Models.{State, operational, unavailable, unknown, state_eq}
use vpn_pulse.Alerts.Tables.{
  group, admin, bot_unavailable, bot_recovered, bot_unknown, Tables, queue_state_eq,
}
use vpn_pulse.Alerts.Policy.{notification_for}
use vpn_pulse.Alerts.Audience.{notification_for-group_iff}
use vpn_pulse.Alerts.Repository.{
  Naming, Change, new_snapshot, new_transition, new_notification, snapshot_of, transition_id,
  save_evaluation,
}
use vpn_pulse.Alerts.Snapshots.{saved_row, snapshot_of-save_evaluation}
use vpn_pulse.Alerts.Repeats.{save_evaluation_repeat}
use vpn_pulse.Alerts.Worker.{Messenger, returned_false, is_due, deliver_pending}
use vpn_pulse.Alerts.Delivery.{deliver_pending-due}

notification_for-group_iff_example :
    (notification_for unknown unavailable false ≡ some (group, bot_unavailable)) ↔ (
      ((unavailable ≡ unavailable) × (false ≡ false) × (bot_unavailable ≡ bot_unavailable))
      ⊎ ((unavailable ≡ operational) × (false ≡ true) × (bot_unavailable ≡ bot_recovered)))
notification_for-group_iff_example =
    notification_for-group_iff unknown unavailable false bot_unavailable

-- Names that are not hashed.
abbrev plain : Naming
plain = record { uuid5 = λ name. name; iso = λ at. "" }

abbrev change : State → Option ℕ → ℕ → Change
change state observed_at at = record {
  scope_key = "server:de";
  server_id = "de";
  network_scope = "all";
  evaluation = record {
    state = state;
    reason_code = "";
    observed_at = observed_at;
    fresh_until = observed_at;
    evidence_count = 1;
    coverage = record { num = 1; den = 1 };
  };
  evaluated_at = at;
}

abbrev empty : Tables
empty = record { snapshots = []; transitions = []; queue = [] }

abbrev down : Tables
down = (save_evaluation plain 600 empty (change unavailable (some 5) 10)).0

-- Operational, after a gap in the data that was announced.
abbrev after_gap : Tables
after_gap = record {
  snapshots = new_snapshot (change operational (some 35) 40) 4 ∷ [];
  transitions = new_transition plain (change unknown none 30) operational ∷ [];
  queue = new_notification plain (change unknown none 30) operational admin bot_unknown 630 ∷ [];
}

snapshot_of-save_evaluation_example : snapshot_of down "server:de" ≡ (
    if ◌==◌ {A = String} "server:de" "server:de"
    then some (saved_row empty (change unavailable (some 5) 10))
    else snapshot_of empty "server:de")
snapshot_of-save_evaluation_example =
    snapshot_of-save_evaluation plain 600 empty (change unavailable (some 5) 10) "server:de"

abbrev refusing : Messenger ℕ
refusing m template params destination = (returned_false, m + 1)

deliver_pending-due_example :
    any (is_due 10) (deliver_pending refusing 30 10 0 down.queue).2 ≡ false
deliver_pending-due_example = deliver_pending-due refusing 30 10 0 down.queue (omega arith)

abbrev after_outage : ℕ × ℕ × ℕ
after_outage =
    let n = (deliver_pending refusing 30 10 0 down.queue).0 in (n.sent, n.failed, n.superseded)

save_evaluation_repeat_example :
    let (after, reported) = save_evaluation plain 600 after_gap (change unknown none 50) in
    (length after.transitions ≡ length after_gap.transitions)
    × (length after.queue ≡ length after_gap.queue)
    × (reported ≡ some (transition_id plain (change unknown none 30) operational))
unfolding find any string_eq state_value
save_evaluation_repeat_example =
    save_evaluation_repeat plain 600 after_gap (change unknown none 50) (change unknown none 30)
      operational refl (ground arith) refl refl refl refl refl
