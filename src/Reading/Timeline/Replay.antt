-- ===== src/Reading/Timeline/Replay.antt =====
-- The timeline is the history of the transitions: storage/read_model.py, `_timeline`.
use vpn_pulse.Store.Tables.{Database}
use vpn_pulse.Alerts.Tables
use vpn_pulse.Alerts.Repository.{snapshot_of}
use vpn_pulse.Prelude.{
  String, ◌==◌, string_eq, ℕ, ◌≤◌, ◌<◌, true, ◌≡◌, refl, List, [], ◌∷◌, ◌++◌, ltb, leb,
  if◌then◌else◌, arith, Bool-cases, inl, inr, leb→le,
}
use vpn_pulse.Prelude.Lists.{All, select}
use vpn_pulse.Prelude.Sorting.{IsSorted, by_key, sort-IsSorted, by_key-IsOrder}
use vpn_pulse.Domain.Models.{State, unknown}
use vpn_pulse.Alerts.Tables.{Transition}
use vpn_pulse.Reading.Timeline.{
  Interval, points_from, next_at, clip, intervals_of, state_at, timeline, transitions_of, scope_of,
  current_state, first_state, known_from,
}

-- The state that the transitions up to an instant lead to.
unfoldable pub replay : ℕ → State → List Transition → State
replay t state [] = state
replay t state (r ∷ rows) = replay t (if leb r.confirmed_at t then r.to_state else state) rows

abbrev pub confirmed_at : Transition → ℕ
confirmed_at r = r.confirmed_at

-- What is confirmed after an instant does not count at it.
replay_later :
    (t from : ℕ) (state : State) (rows : List Transition)
    → t < from
    → All (λ r. leb from (confirmed_at r) ≡ true) rows
    → replay t state rows ≡ state
unfolding replay
replay_later t from state [] h a = refl
replay_later t from state (r ∷ rows) h a = ground (arith, a.0, replay_later t from state rows h a.1)

state_at-clip_inside :
    (known at until t : ℕ) (state : State) (rest : List Interval)
    → at ≤ t
    → t < until
    → state_at (clip known at until state ++ rest) t ≡ (if ltb t known then unknown else state)
unfolding state_at clip
state_at-clip_inside known at until t state rest h k = ground arith

state_at-clip_outside :
    (known at until t : ℕ) (state : State) (rest : List Interval)
    → until ≤ t
    → state_at (clip known at until state ++ rest) t ≡ state_at rest t
unfolding state_at clip
state_at-clip_outside known at until t state rest h = ground arith

pub next_at-points_from :
    (start end cursor : ℕ) (state : State) (rows : List Transition)
    → next_at end (points_from start end cursor state rows) ≡ cursor
unfolding points_from
next_at-points_from start end cursor state [] = refl
next_at-points_from start end cursor state (r ∷ rows) =
    ground (arith, next_at-points_from start end cursor r.to_state rows)

module _ (known start end t : ℕ) (before_end : t < end) where
  walk :
      (cursor : ℕ) (state : State) (rows : List Transition)
      → start ≤ cursor
      → cursor ≤ t
      → IsSorted (by_key confirmed_at) rows
      → state_at (intervals_of known end (points_from start end cursor state rows)) t
        ≡ (if ltb t known then unknown else replay t state rows)
  unfolding points_from intervals_of replay
  walk cursor state [] h k s = state_at-clip_inside known cursor end t state [] k before_end
  walk cursor state (r ∷ rows) h k s = elim (Bool-cases (leb r.confirmed_at start)) [
    | inl past ↦ ground (arith, past, walk cursor r.to_state rows h k s.1)
    | inr not_past ↦ elim (Bool-cases (leb end r.confirmed_at)) [
      | inl late ↦ ground (
        arith,
        not_past,
        late,
        state_at-clip_inside known cursor end t state [] k before_end,
        replay_later t r.confirmed_at state rows,
      )
      | inr inside ↦
          let rest =
            intervals_of known end (points_from start end r.confirmed_at r.to_state rows) in
          let next = next_at-points_from start end r.confirmed_at r.to_state rows in
          elim (Bool-cases (leb r.confirmed_at t)) [
            | inl passed ↦ ground (
              arith,
              not_past,
              inside,
              passed,
              next,
              state_at-clip_outside known cursor r.confirmed_at t state rest,
              walk r.confirmed_at r.to_state rows (ground arith) (leb→le r.confirmed_at t passed)
                  s.1,
            )
            | inr ahead ↦ ground (
              arith,
              not_past,
              inside,
              ahead,
              next,
              state_at-clip_inside known cursor r.confirmed_at t state rest k,
              replay_later t r.confirmed_at state rows,
            )
          ]
    ]
  ]

-- At every instant of the window the timeline shows the state that the transitions confirmed until
-- then lead to, from the first one's earlier state or, without transitions, from the current state;
-- before the server's first observation it shows "unknown".
pub timeline-replay :
    (db : Database) (alerts : Tables.Tables) (server_id : String) (start end t : ℕ)
    → start ≤ t
    → t < end
    → let rows = transitions_of alerts (scope_of server_id) in
      let current = current_state (snapshot_of alerts (scope_of server_id)) end in
      state_at (timeline db alerts server_id start end) t ≡ (
        if ltb t (known_from db server_id end)
        then unknown
        else replay t (first_state rows current) rows)
unfolding timeline transitions_of
timeline-replay db alerts server_id start end t h k =
    let rows = select (λ (r : Transition). r.scope_key == scope_of server_id) alerts.transitions in
    walk (known_from db server_id end) start end t k start _ _ (omega arith) h
      (sort-IsSorted (by_key-IsOrder confirmed_at) rows)
