-- ===== src/Reading/Timeline/Window.antt =====
-- The timeline fills its window, so the availability is a quotient of parts of it.
use mathlib.Core.Path.{subst}
use vpn_pulse.Prelude.{
  max, nat_eq, Option, none, some, ℕ, ◌+◌, ◌-◌, ◌*◌, ◌≤◌, ◌<◌, Bool, true, false, ◌≡◌, refl, List,
  [], ◌∷◌, ◌++◌, ltb, leb, if◌then◌else◌, arith, Bool-cases, inl, inr, leb→le, String, ◌==◌,
  string_eq,
}
use vpn_pulse.Prelude.Lists.{All, select}
use vpn_pulse.Prelude.Sorting.{IsSorted, sort, by_key, sort-IsSorted, sort, by_key-IsOrder}
use vpn_pulse.Domain.Models.{State, operational, degraded, unavailable, unknown, state_eq, Ratio}
use vpn_pulse.Store.Tables.{Database}
use vpn_pulse.Alerts.Tables.{Transition}
use vpn_pulse.Alerts.Tables
use vpn_pulse.Reading.Timeline.{
  Interval, transitions_of, scope_of, known_from, availability, points_from, clip, intervals_of,
  timeline, known_time, operational_time, half_points,
}
use vpn_pulse.Reading.Timeline.Replay.{confirmed_at, next_at-points_from}

-- Neighbours meet, none is empty, and the first and the last end where the window does.
abbrev pub IsTiling : ℕ → ℕ → List Interval → Type 0
IsTiling start end [] = start ≡ end
IsTiling start end (i ∷ intervals) =
    (i.at ≡ start) × (start < i.until) × IsTiling i.until end intervals

clip-IsTiling :
    (known at until end : ℕ) (state : State) (rest : List Interval)
    → at ≤ until
    → IsTiling until end rest
    → IsTiling at end (clip known at until state ++ rest)
unfolding clip
clip-IsTiling known at until end state rest h tiles = elim (Bool-cases (leb until at)) [
  | inl empty ↦
      rw empty (subst (λ x. IsTiling x end rest) (omega (arith, leb→le until at empty)) tiles)
  | inr filled ↦ elim (Bool-cases (ltb at known)) [
    | inr seen ↦ rw (filled, seen) (refl, ground arith, tiles)
    | inl unseen ↦ elim (Bool-cases (leb until known)) [
      | inl all_unseen ↦ rw (filled, unseen, all_unseen) (refl, ground arith, tiles)
      | inr part ↦ rw (filled, unseen, part) (refl, ground arith, (refl, ground arith, tiles))
    ]
  ]
]

-- The cursor is not after any row, but for rows from before the window.
abbrev Behind : ℕ → ℕ → List Transition → Type 0
Behind start cursor = All (λ r. cursor ≤ max start (confirmed_at r))

Behind-sorted :
    (start at : ℕ) (rows : List Transition)
    → All (λ r. leb at (confirmed_at r) ≡ true) rows
    → Behind start at rows
Behind-sorted start at [] a = tt
Behind-sorted start at (r ∷ rows) a = (ground (arith, a.0), Behind-sorted start at rows a.1)

Behind-start : (start : ℕ) (rows : List Transition) → Behind start start rows
Behind-start start [] = tt
Behind-start start (r ∷ rows) = (omega arith, Behind-start start rows)

module _ (known start end : ℕ) where
  points_from-IsTiling :
      (cursor : ℕ) (state : State) (rows : List Transition)
      → cursor ≤ end
      → IsSorted (by_key confirmed_at) rows
      → Behind start cursor rows
      → IsTiling cursor end (intervals_of known end (points_from start end cursor state rows))
  unfolding points_from intervals_of
  points_from-IsTiling cursor state [] h s b = clip-IsTiling known cursor end end state [] h refl
  points_from-IsTiling cursor state (r ∷ rows) h s b =
      elim (Bool-cases (leb r.confirmed_at start)) [
        | inl past ↦ rw past (points_from-IsTiling cursor r.to_state rows h s.1 b.1)
        | inr not_past ↦ elim (Bool-cases (leb end r.confirmed_at)) [
          | inl late ↦ rw (not_past, late) (clip-IsTiling known cursor end end state [] h refl)
          | inr inside ↦
              rw (not_past, inside, next_at-points_from start end r.confirmed_at r.to_state rows)
                (clip-IsTiling known cursor r.confirmed_at end state _ (ground (arith, b.0)) (
                  points_from-IsTiling r.confirmed_at r.to_state rows (ground arith) s.1
                    (Behind-sorted start r.confirmed_at rows s.0)))
        ]
      ]

-- The intervals of a timeline tile its window: the first begins where the window does, each next
-- one where the one before it ends, none is empty, and the last ends where the window does.
pub timeline-IsTiling :
    (db : Database) (alerts : Tables.Tables) (server_id : String) (start end : ℕ)
    → start ≤ end
    → IsTiling start end (timeline db alerts server_id start end)
unfolding timeline transitions_of
timeline-IsTiling db alerts server_id start end h =
    let rows = select (λ (r : Transition). r.scope_key == scope_of server_id) alerts.transitions in
    points_from-IsTiling (known_from db server_id end) start end start _ _ h
      (sort-IsSorted (by_key-IsOrder confirmed_at) rows)
      (Behind-start start (sort (by_key confirmed_at) rows))

known_time-IsTiling :
    (start end : ℕ) (intervals : List Interval)
    → IsTiling start end intervals
    → start + known_time intervals ≤ end
unfolding known_time
known_time-IsTiling start end [] h = omega (arith, h)
known_time-IsTiling start end (i ∷ intervals) h =
    ground (arith, h.0, h.1, known_time-IsTiling i.until end intervals h.2)

half_points-le : (s : State) (n : ℕ) → half_points s * n ≤ 2 * (if s == unknown then 0 else n)
unfolding half_points
half_points-le operational n = ground arith
half_points-le degraded n = ground arith
half_points-le unavailable n = ground arith
half_points-le unknown n = ground arith

operational_time-le :
    (intervals : List Interval) → operational_time intervals ≤ 2 * known_time intervals
unfolding operational_time known_time
operational_time-le [] = omega arith
operational_time-le (i ∷ intervals) =
    omega (arith, half_points-le i.state (i.until - i.at), operational_time-le intervals)

abbrev pub IsShare : Option Ratio → Type 0
IsShare none = Unit
IsShare (some r) = (r.num ≤ r.den) × (0 < r.den)

IsShare-unless :
    (c : Bool) (r : Ratio)
    → (c ≡ false → (r.num ≤ r.den) × (0 < r.den))
    → IsShare (if c then none else some r)
IsShare-unless true r f = tt
IsShare-unless false r f = f refl

-- The availability and the coverage of a window are shares: each has a positive denominator and is
-- at most 1, or it is not given.
pub availability-IsShare :
    (db : Database) (alerts : Tables.Tables) (server_id : String) (window now : ℕ)
    → window ≤ now
    → let (uptime, coverage) = availability db alerts server_id window now in
      IsShare uptime × IsShare coverage
unfolding availability
availability-IsShare db alerts server_id window now h =
    let intervals = timeline db alerts server_id (now - window) now in
    let fits =
      known_time-IsTiling (now - window) now intervals
        (timeline-IsTiling db alerts server_id (now - window) now (omega arith)) in
    (
      IsShare-unless (leb (known_time intervals) 0) _
          (λ e. (operational_time-le intervals, ground arith)),
      IsShare-unless (window == 0) _ (λ e. (omega (arith, fits), ground arith)),
    )
