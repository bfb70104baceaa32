-- ===== src/Reading/Timeline.antt =====
-- storage/read_model.py: `_timeline`, `_state_times` and `_availability`.
pub mod Replay
pub mod Window
use vpn_pulse.Prelude.{
  ℕ, ◌+◌, ◌-◌, ◌*◌, String, ◌<>◌, Bool, true, false, not, ◌&&◌, Option, none, some, List, [], ◌∷◌,
  ◌++◌, map, ltb, leb, if◌then◌else◌, ◌==◌, string_eq, nat_eq,
}
use vpn_pulse.Prelude.Lists.{select}
use vpn_pulse.Prelude.Sorting.{sort, by_key}
use vpn_pulse.Clock.{text_le}
use vpn_pulse.Domain.Models.{State, operational, degraded, unavailable, unknown, state_eq, Ratio}
use vpn_pulse.Store.Tables.{ObservationRow, Database}
use vpn_pulse.Alerts.Tables.{Snapshot, Transition}
use vpn_pulse.Alerts.Tables
use vpn_pulse.Alerts.Repository.{snapshot_of}

abbrev pub scope_of : String → String
scope_of server_id = "server:" <> server_id

-- A pair of `points`, and a triple of `intervals`.
pub record Point : Type 0 where
  pub at : ℕ
  pub state : State

pub record Interval : Type 0 where
  pub at : ℕ
  pub until : ℕ
  pub state : State

-- MIN of a column of texts.
unfoldable pub min_text : List ℕ → Option ℕ
min_text [] = none
min_text (t ∷ ts) = elim (min_text ts) [
  | none ↦ some t
  | some u ↦ some (if text_le t u then t else u)
]

abbrev pub or_instant : Option ℕ → ℕ → ℕ
or_instant none end = end
or_instant (some t) end = t

-- `known_from`: the first observation of the server, or the end.
unfoldable pub known_from : Database → String → ℕ → ℕ
unfolding select min_text
known_from db server_id end =
    or_instant
      (min_text (
        map (λ (o : ObservationRow). o.observed_at)
          (select (λ (o : ObservationRow). o.server_id == server_id) db.observations)))
      end

abbrev pub is_before : Option ℕ → ℕ → Bool
is_before none end = false
is_before (some t) end = ltb t end

-- `current`
unfoldable pub current_state : Option Snapshot → ℕ → State
current_state none end = unknown
current_state (some s) end = if is_before s.fresh_until end then unknown else s.state

-- The rows of a scope, ORDER BY confirmed_at.
unfoldable pub transitions_of : Tables.Tables → String → List Transition
unfolding select sort
transitions_of alerts scope =
    sort (by_key (λ (r : Transition). r.confirmed_at))
      (select (λ (r : Transition). r.scope_key == scope) alerts.transitions)

abbrev pub first_state : List Transition → State → State
first_state [] current = current
first_state (r ∷ rows) current = r.from_state

-- The loop over the rows, with the point that ends the list.
unfoldable pub points_from : ℕ → ℕ → ℕ → State → List Transition → List Point
points_from start end cursor state [] = record { at = cursor; state = state } ∷ []
points_from start end cursor state (r ∷ rows) =
    let past = leb r.confirmed_at start in
    let rest = points_from start end (if past then cursor else r.confirmed_at) r.to_state rows in
    let point : Point = record { at = cursor; state = state } in
    if past then rest else if leb end r.confirmed_at then point ∷ [] else point ∷ rest

abbrev pub next_at : ℕ → List Point → ℕ
next_at end [] = end
next_at end (p ∷ points) = p.at

-- What one point adds: nothing is known before the first observation.
unfoldable pub clip : ℕ → ℕ → ℕ → State → List Interval
clip known at until state =
    if leb until at
    then []
    else if ltb at known
    then (if leb until known
        then record { at = at; until = until; state = unknown } ∷ []
        else (record { at = at; until = known; state = unknown }
            ∷ record { at = known; until = until; state = state }
            ∷ []))
    else record { at = at; until = until; state = state } ∷ []

unfoldable pub intervals_of : ℕ → ℕ → List Point → List Interval
unfolding clip
intervals_of known end [] = []
intervals_of known end (p ∷ points) =
    clip known p.at (next_at end points) p.state ++ intervals_of known end points

unfoldable pub timeline : Database → Tables.Tables → String → ℕ → ℕ → List Interval
unfolding points_from intervals_of transitions_of current_state known_from
timeline db alerts server_id start end =
    let rows = transitions_of alerts (scope_of server_id) in
    let current = current_state (snapshot_of alerts (scope_of server_id)) end in
    intervals_of (known_from db server_id end) end
      (points_from start end start (first_state rows current) rows)

-- `state_at` of `_points`.
unfoldable pub state_at : List Interval → ℕ → State
state_at [] t = unknown
state_at (i ∷ intervals) t =
    let later = state_at intervals t in if leb i.at t && ltb t i.until then i.state else later

-- ORDER BY confirmed_at DESC, rowid DESC LIMIT 1.
unfoldable pub newest : Option Transition → List Transition → Option Transition
newest best [] = best
newest none (r ∷ rows) = newest (some r) rows
newest (some b) (r ∷ rows) = newest (some (if leb b.confirmed_at r.confirmed_at then r else b)) rows

abbrev pub confirmed : Option Transition → Option ℕ
confirmed none = none
confirmed (some r) = some r.confirmed_at

-- `_state_times`: since when the state lasts, and when the last trouble ended.
unfoldable pub state_times : Tables.Tables → String → Option ℕ × Option ℕ
unfolding newest select
state_times alerts server_id =
    let is_recovery : Transition → Bool = λ r.
      r.scope_key == scope_of server_id
      && (r.to_state == operational && not (r.from_state == unknown)) in
    (
      confirmed (
          newest none
            (select (λ (r : Transition). r.scope_key == scope_of server_id) alerts.transitions)),
      confirmed (newest none (select is_recovery alerts.transitions)),
    )

-- What an interval adds to `known` and, in half microseconds, to `operational`.
unfoldable pub known_time : List Interval → ℕ
known_time [] = 0
known_time (i ∷ intervals) =
    (if i.state == unknown then 0 else i.until - i.at) + known_time intervals

unfoldable pub half_points : State → ℕ
half_points operational = 2
half_points degraded = 1
half_points unavailable = 0
half_points unknown = 0

unfoldable pub operational_time : List Interval → ℕ
unfolding half_points
operational_time [] = 0
operational_time (i ∷ intervals) =
    half_points i.state * (i.until - i.at) + operational_time intervals

-- `_availability`: the two quotients before `round(…, 4)`.
unfoldable pub availability :
    Database → Tables.Tables → String → ℕ → ℕ → Option Ratio × Option Ratio
unfolding timeline known_time operational_time
availability db alerts server_id window now =
    let intervals = timeline db alerts server_id (now - window) now in
    let known = known_time intervals in
    (
      (if leb known 0
          then none
          else some (record { num = operational_time intervals; den = 2 * known })),
      (if window == 0 then none else some (record { num = known; den = window })),
    )
