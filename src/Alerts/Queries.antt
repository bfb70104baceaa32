-- ===== src/Alerts/Queries.antt =====
-- The SELECTs of StateRepository: what is waiting or was dropped, and what the group was told.
use vpn_pulse.Prelude.{
  ℕ, String, Bool, false, ◌&&◌, ◌||◌, Option, none, some, List, [], ◌∷◌, leb, if◌then◌else◌, ◌==◌,
  string_eq,
}
use vpn_pulse.Prelude.Lists.{select, any}
use vpn_pulse.Prelude.Tables.{count_where}
use vpn_pulse.Domain.Models.{state_eq}
pub use vpn_pulse.Clock.{seconds}
use vpn_pulse.Alerts.Tables.{
  group, admin, destination_eq, bot_unavailable, template_eq, pending, sent, superseded,
  queue_state_eq, Transition, Notification, Tables,
}

-- The JOIN of a notification with its transition, restricted to a scope. The id of a transition is
-- the primary key, so there is one row of the join for a notification at most.
unfoldable pub in_scope : List Transition → String → Notification → Bool
unfolding any
in_scope transitions scope_key q =
    any (λ (t : Transition). t.id == q.transition_id && t.scope_key == scope_key) transitions

unfoldable pub is_waiting : List Transition → String → Notification → Bool
unfolding in_scope
is_waiting transitions scope_key q =
    in_scope transitions scope_key q && q.destination == admin && q.state == pending

unfoldable pub pending_admin_notices : Tables → String → List Notification
unfolding is_waiting select
pending_admin_notices db scope_key = select (is_waiting db.transitions scope_key) db.queue

unfoldable pub dropped_notices : Tables → String → ℕ → ℕ
unfolding in_scope count_where
dropped_notices db scope_key since =
    count_where
      (λ (q : Notification).
        in_scope db.transitions scope_key q
        && q.destination == admin
        && q.state == superseded
        && leb since q.created_at)
      db.queue

-- ORDER BY created_at DESC, rowid DESC LIMIT 1: the last row that no earlier one outlives.
unfoldable pub newest_of : Option Notification → List Notification → Option Notification
newest_of best [] = best
newest_of none (q ∷ qs) = newest_of (some q) qs
newest_of (some b) (q ∷ qs) = newest_of (some (if leb b.created_at q.created_at then q else b)) qs

-- What the group was told, or is about to be.
unfoldable pub is_group_message : List Transition → String → Notification → Bool
unfolding in_scope
is_group_message transitions scope_key q =
    in_scope transitions scope_key q
    && q.destination == group
    && (q.state == pending || q.state == sent)

abbrev pub says_unavailable : Option Notification → Bool
says_unavailable none = false
says_unavailable (some q) = q.template == bot_unavailable

unfoldable pub group_alerted : Tables → String → Bool
unfolding newest_of is_group_message select
group_alerted db scope_key =
    says_unavailable (newest_of none (select (is_group_message db.transitions scope_key) db.queue))
