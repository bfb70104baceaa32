-- ===== src/Alerts/Repeats.antt =====
-- A change of state under a dedupe key that was used before leaves no trace but the snapshot.
use vpn_pulse.Prelude.{
  ℕ, String, Bool, true, ◌≡◌, ◌≢◌, refl, sym, ap, ◌∙◌, Option, none, some, List, [], ◌∷◌, map, ◌==◌,
  string_eq, arith,
}
use vpn_pulse.Prelude.Lists.{length, any, any_or_left, any_or_right}
use vpn_pulse.Prelude.Tables.{length-update_where, any-update_where, insert_or_ignore_clash}
use vpn_pulse.Domain.Models.{State, state_eq}
use vpn_pulse.Alerts.Tables.{Tables, Transition, Notification, Destination, Template, superseded}
use vpn_pulse.Alerts.Queries.{pending_admin_notices}
use vpn_pulse.Alerts.Repository.{
  Naming, Change, snapshot_of, state_before, save_snapshot, record_transition, dedupe_key,
  transition_id, notification_id, mark_superseded, by_id, supersede_ids, enqueue, announce,
  save_evaluation,
}

length-supersede_ids :
    (ids : List String) (queue : List Notification)
    → length (supersede_ids ids queue) ≡ length queue
unfolding supersede_ids mark_superseded
length-supersede_ids [] queue = refl
length-supersede_ids (id ∷ ids) queue = simp (length-supersede_ids ids, length-update_where)

any-supersede_ids :
    (key : String) (ids : List String) (queue : List Notification)
    → any (λ (q : Notification). q.dedupe_key == key) (supersede_ids ids queue)
      ≡ any (λ (q : Notification). q.dedupe_key == key) queue
unfolding supersede_ids mark_superseded
any-supersede_ids key [] queue = refl
any-supersede_ids key (id ∷ ids) queue =
    any-supersede_ids key ids (mark_superseded id queue)
    ∙ any-update_where (by_id id) (λ (q : Notification). q.dedupe_key == key)
        (λ q. record q { state = superseded }) queue (λ q. refl)

module _ (names : Naming) where
  abbrev pub has_transition : Tables → String → Bool
  has_transition db id = any (λ (t : Transition). t.id == id) db.transitions

  abbrev pub has_notice : Tables → String → Bool
  has_notice db key = any (λ (q : Notification). q.dedupe_key == key) db.queue

  length-record_transition :
      (db : Tables) (c : Change) (previous : State)
      → has_transition db (transition_id names c previous) ≡ true
      → length (record_transition names db c previous).transitions ≡ length db.transitions
  unfolding record_transition
  length-record_transition db c previous h = simp length-update_where (
      ap length (
        insert_or_ignore_clash _ _ db.transitions (
          any_or_left _ (λ (t : Transition). t.dedupe_key == dedupe_key names c previous)
            db.transitions h)))

  enqueue_clash :
      (db : Tables) (c : Change) (previous : State) (notice : Option (Destination × Template × ℕ))
      → has_notice db (dedupe_key names c previous) ≡ true
      → enqueue names db c previous notice ≡ db
  unfolding enqueue
  enqueue_clash db c previous none h = refl
  enqueue_clash db c previous (some (d, t, at)) h = rw (
      insert_or_ignore_clash _ _ db.queue (
        any_or_right (λ (q : Notification). q.id == notification_id names c previous) _ db.queue h))

  -- When a transition and a notice are in the tables under the names of this change, the change is
  -- reported as a transition, but the tables of transitions and of notices grow by no row.
  announce_repeat :
      (quiet : ℕ) (db : Tables) (c : Change) (previous : State)
      → has_transition db (transition_id names c previous) ≡ true
      → has_notice db (dedupe_key names c previous) ≡ true
      → (length (announce names db c previous quiet).transitions ≡ length db.transitions)
        × (length (announce names db c previous quiet).queue ≡ length db.queue)
  unfolding announce record_transition
  announce_repeat quiet db c previous h k =
      let opened = record_transition names db c previous in
      let ids = map (λ (q : Notification). q.id) (pending_admin_notices opened c.scope_key) in
      let cleared = record opened { queue = supersede_ids ids opened.queue } in
      rw (enqueue_clash cleared c previous _ (any-supersede_ids _ ids db.queue ∙ k))
        (length-record_transition db c previous h, length-supersede_ids ids db.queue)

  pub save_evaluation_changed :
      (quiet : ℕ) (db : Tables) (c : Change)
      → c.evaluation.state ≢ state_before (snapshot_of db c.scope_key)
      → save_evaluation names quiet db c ≡ (
        announce names (save_snapshot db c) c (state_before (snapshot_of db c.scope_key)) quiet,
        some (transition_id names c (state_before (snapshot_of db c.scope_key))),
      )
  unfolding save_evaluation
  save_evaluation_changed quiet db c other = ground arith

  -- A change whose scope, states and time of observation are those of an earlier change that left a
  -- transition and a notice is not recorded and not announced: no row is added to either table,
  -- and the id of the earlier transition is reported once more. Two falls to `unknown` for want of
  -- fresh evidence always have the same time of observation, none.
  pub save_evaluation_repeat :
      (quiet : ℕ) (db : Tables) (c earlier : Change) (previous : State)
      → state_before (snapshot_of db c.scope_key) ≡ previous
      → c.evaluation.state ≢ previous
      → earlier.scope_key ≡ c.scope_key
      → earlier.evaluation.state ≡ c.evaluation.state
      → earlier.evaluation.observed_at ≡ c.evaluation.observed_at
      → has_transition db (transition_id names earlier previous) ≡ true
      → has_notice db (dedupe_key names earlier previous) ≡ true
      → let (after, reported) = save_evaluation names quiet db c in
        (length after.transitions ≡ length db.transitions)
        × (length after.queue ≡ length db.queue)
        × (reported ≡ some (transition_id names earlier previous))
  unfolding save_snapshot
  save_evaluation_repeat quiet db c earlier previous before other scope state at t n =
      let key : dedupe_key names earlier previous ≡ dedupe_key names c previous = cc in
      let id : transition_id names earlier previous ≡ transition_id names c previous = cc in
      let changed = save_evaluation_changed quiet db c (λ e. other (e ∙ before)) in
      let (ts, qs) =
        announce_repeat quiet (save_snapshot db c) c previous (rw (← id) t) (rw (← key) n) in
      rw (changed, before) (ts, qs, ap some (sym id))
