-- ===== src/Alerts/Snapshots.antt =====
-- What `save_evaluation` does to the snapshots: a map from scopes to the last evaluation.
use vpn_pulse.Prelude.{
  ℕ, ◌+◌, leb, ap, ◌∙◌, String, ◌≡◌, refl, Option, none, some, if◌then◌else◌, ◌==◌, string_eq,
  arith, Bool-cases, inl, inr, ◌↔◌,
}
use vpn_pulse.Prelude.Tables.{updated_or_new, find-upsert}
use vpn_pulse.Domain.Models.{State, state_eq}
use vpn_pulse.Alerts.Tables.{Snapshot, Tables, Destination, Template}
use vpn_pulse.Alerts.Repository.{
  Naming, Change, snapshot_of, state_before, next_version, new_snapshot, save_snapshot, enqueue,
  announce, save_evaluation, record_transition,
}

-- The version after a row, and its server and network scope, which a scope that is known keeps.
abbrev pub version_after : Option Snapshot → ℕ
version_after none = 1
version_after (some s) = s.version + 1

abbrev pub server_kept : Change → Option Snapshot → String
server_kept c none = c.server_id
server_kept c (some s) = s.server_id

abbrev pub network_kept : Change → Option Snapshot → String
network_kept c none = c.network_scope
network_kept c (some s) = s.network_scope

-- The row that a change should leave, written out.
abbrev pub saved_row : Tables → Change → Snapshot
saved_row db c = record {
  scope_key = c.scope_key;
  server_id = server_kept c (snapshot_of db c.scope_key);
  network_scope = network_kept c (snapshot_of db c.scope_key);
  state = c.evaluation.state;
  reason_code = c.evaluation.reason_code;
  confidence =
      if leb c.evaluation.coverage.den c.evaluation.coverage.num then "sufficient" else "partial";
  observed_at = c.evaluation.observed_at;
  evaluated_at = c.evaluated_at;
  fresh_until = c.evaluation.fresh_until;
  evidence = record { count = c.evaluation.evidence_count; coverage = c.evaluation.coverage };
  version = version_after (snapshot_of db c.scope_key);
}

saved_row-upsert :
    (db : Tables) (c : Change) (old : Option Snapshot)
    → snapshot_of db c.scope_key ≡ old
    → let new = new_snapshot c (next_version old) in
      updated_or_new
        (λ (s : Snapshot). record new { server_id = s.server_id; network_scope = s.network_scope })
        new
        old
      ≡ saved_row db c
saved_row-upsert db c none h = rw h refl
saved_row-upsert db c (some s) h = rw h refl

snapshot_of-save_snapshot :
    (db : Tables) (c : Change) (key : String)
    → snapshot_of (save_snapshot db c) key
      ≡ (if key == c.scope_key then some (saved_row db c) else snapshot_of db key)
unfolding save_snapshot
snapshot_of-save_snapshot db c key =
    let new = new_snapshot c (next_version (snapshot_of db c.scope_key)) in
    find-upsert (λ (s : Snapshot). s.scope_key)
      (λ s. record new { server_id = s.server_id; network_scope = s.network_scope }) new key
      db.snapshots (λ y. refl)
    ∙ ap (λ row. if key == c.scope_key then some row else snapshot_of db key)
        (saved_row-upsert db c (snapshot_of db c.scope_key) refl)

module _ (names : Naming) where
  snapshots-enqueue :
      (db : Tables) (c : Change) (previous : State) (notice : Option (Destination × Template × ℕ))
      → (enqueue names db c previous notice).snapshots ≡ db.snapshots
  unfolding enqueue
  snapshots-enqueue db c previous none = refl
  snapshots-enqueue db c previous (some (d, t, at)) = refl

  snapshots-announce :
      (db : Tables) (c : Change) (previous : State) (quiet : ℕ)
      → (announce names db c previous quiet).snapshots ≡ db.snapshots
  unfolding announce record_transition
  snapshots-announce db c previous quiet = snapshots-enqueue _ _ _ _

  -- Whatever the evaluation, the snapshots are a map that is updated at the scope, where every other
  -- scope keeps its row. The new row has the state, the reason, the evidence and the times of the
  -- evaluation, is sufficient exactly where the coverage is full, and has version 1, or the one after
  -- the old row's; a scope that is known keeps its server and its network scope.
  pub snapshot_of-save_evaluation :
      (quiet : ℕ) (db : Tables) (c : Change) (key : String)
      → snapshot_of (save_evaluation names quiet db c).0 key
        ≡ (if key == c.scope_key then some (saved_row db c) else snapshot_of db key)
  unfolding save_evaluation
  snapshot_of-save_evaluation quiet db c key =
      let previous = state_before (snapshot_of db c.scope_key) in
      elim (Bool-cases (c.evaluation.state == previous)) [
        | inl same ↦ rw same (snapshot_of-save_snapshot db c key)
        | inr other ↦ rw (other, snapshots-announce) (snapshot_of-save_snapshot db c key)
      ]

  -- A transition is reported exactly when the state differs from the one of the last snapshot, or
  -- from `unknown` for a new scope.
  pub save_evaluation-none_iff :
      (quiet : ℕ) (db : Tables) (c : Change)
      → ((save_evaluation names quiet db c).1 ≡ none)
        ↔ (c.evaluation.state ≡ state_before (snapshot_of db c.scope_key))
  unfolding save_evaluation
  save_evaluation-none_iff quiet db c = ground arith
