-- ===== src/Alerts/Worker.antt =====
-- NotificationWorker. `send` stands for the messenger, which the worker only calls: it takes its
-- own state, and returns a value, None or False, or raises.
use vpn_pulse.Prelude.{
  ℕ, ◌+◌, ◌*◌, String, Bool, true, false, ◌&&◌, Option, none, some, List, [], ◌∷◌, ◌++◌, leb,
  if◌then◌else◌, ◌==◌, string_eq,
}
use vpn_pulse.Prelude.Lists.{length, select}
use vpn_pulse.Prelude.Sorting.{sort, by_key}
use vpn_pulse.Prelude.Tables.{update_where}
use vpn_pulse.Alerts.Tables.{
  Destination, group, destination_eq, Template, bot_unavailable, bot_recovered, template_eq, Params,
  pending, sent, failed, queue_state_eq, Notification,
}
use vpn_pulse.Alerts.Policy.{max_attempts}
use vpn_pulse.Alerts.Queries.{seconds}
use vpn_pulse.Alerts.Repository.{by_id, supersede_ids}

pub data Reply : Type 0 where
  returned_true returned_false returned_none raised : Reply

-- `ok = result is not False`, and `ok = False` after an exception.
abbrev pub accepted : Reply → Bool
accepted returned_true = true
accepted returned_none = true
accepted returned_false = false
accepted raised = false

abbrev pub Messenger : Type 0 → Type 0
Messenger M = M → Template → Params → Destination → Reply × M

unfoldable pub is_due : ℕ → Notification → Bool
is_due now q = q.state == pending && leb q.next_attempt_at now

-- The UPDATE after a call of the messenger, for the row as it was read.
unfoldable pub settle : ℕ → ℕ → Bool → Notification → List Notification → List Notification
unfolding update_where
settle backoff now true row queue =
    update_where (by_id row.id)
      (λ q. record q {
        state = sent;
        attempts = q.attempts + 1;
        sent_at = some now;
        last_error_code = none;
      })
      queue
settle backoff now false row queue =
    let attempts = row.attempts + 1 in
    update_where (by_id row.id)
      (λ q. record q {
        state = if leb max_attempts attempts then failed else pending;
        attempts = attempts;
        next_attempt_at = now + seconds (backoff * attempts);
        last_error_code = some "SEND_FAILED";
      })
      queue

-- The rows of the SELECT, oldest first.
unfoldable pub due_rows : ℕ → List Notification → List Notification
unfolding select sort is_due
due_rows now queue = sort (by_key (λ (q : Notification). q.created_at)) (select (is_due now) queue)

-- A text, or the next one where it is empty: `a or b`.
abbrev pub or_text : String → String → String
or_text a b = if a == "" then b else a

abbrev pub key_text : Notification → String
key_text q = or_text q.params.scope_key (or_text q.params.server_id q.id)

abbrev pub same_key : Notification → Notification → Bool
same_key a b = key_text a == key_text b && a.destination == b.destination

-- `newest.pop(key, None)`. The dict has one row for a key; its order is that of insertion.
unfoldable pub pop : Notification → List Notification → Option Notification × List Notification
pop row [] = (none, [])
pop row (q ∷ qs) =
    let (found, rest) = pop row qs in if same_key q row then (some q, qs) else (found, q ∷ rest)

-- A recovery that overtakes an outage which the group never heard of.
abbrev pub cancels : Notification → Notification → Bool
cancels previous row =
    row.destination == group
    && previous.template == bot_unavailable
    && row.template == bot_recovered

-- One pass of the first loop: the dict, and the ids to mark superseded.
unfoldable pub absorb :
    Option Notification × List Notification → Notification → List Notification × List String
absorb (none, newest) row = (newest ++ row ∷ [], [])
absorb (some previous, newest) row =
    if cancels previous row
    then (newest, previous.id ∷ row.id ∷ [])
    else (newest ++ row ∷ [], previous.id ∷ [])

unfoldable pub collapse :
    List Notification → List String → List Notification → List Notification × List String
collapse newest dropped [] = (newest, dropped)
collapse newest dropped (row ∷ rows) =
    let (newest', more) = absorb (pop row newest) row in collapse newest' (dropped ++ more) rows

pub record Counts : Type 0 where
  pub sent : ℕ
  pub failed : ℕ
  pub superseded : ℕ

-- `sent += 1` or `failed += 1`
unfoldable pub tally : Bool → Counts → Counts
tally true n = record n { sent = n.sent + 1 }
tally false n = record n { failed = n.failed + 1 }

module _ {M : Type 0} (send : Messenger M) (backoff now : ℕ) where
  -- `_deliver`
  unfoldable pub deliver : Notification → M → List Notification → Bool × M × List Notification
  deliver row m queue =
      let (reply, m') = send m row.template row.params row.destination in
      (accepted reply, m', settle backoff now (accepted reply) row queue)

  -- The second loop.
  unfoldable pub deliver_all :
      List Notification → M → List Notification → Counts → Counts × M × List Notification
  deliver_all [] m queue n = (n, m, queue)
  deliver_all (row ∷ rows) m queue n =
      let (ok, m', queue') = deliver row m queue in deliver_all rows m' queue' (tally ok n)

  unfoldable pub deliver_pending : M → List Notification → Counts × M × List Notification
  deliver_pending m queue =
      let (newest, dropped) = collapse [] [] (due_rows now queue) in
      deliver_all newest m (supersede_ids dropped queue)
        (record { sent = 0; failed = 0; superseded = length dropped })

  unfoldable pub deliver_first :
      List Notification → M → List Notification → Bool × M × List Notification
  unfolding deliver
  deliver_first [] m queue = (false, m, queue)
  deliver_first (row ∷ rows) m queue =
      let (_, m', queue') = deliver row m queue in (true, m', queue')

  -- LIMIT 1
  unfoldable pub deliver_one : M → List Notification → Bool × M × List Notification
  unfolding due_rows deliver_first
  deliver_one m queue = deliver_first (due_rows now queue) m queue
