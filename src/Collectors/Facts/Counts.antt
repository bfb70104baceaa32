-- ===== src/Collectors/Facts/Counts.antt =====
-- How the counts of an answer relate.
use vpn_pulse.Prelude.{
  ℕ, ◌≤◌, Bool, true, false, Option, none, some, List, [], ◌∷◌, leb, if◌then◌else◌, arith,
}
use vpn_pulse.Prelude.Lists.{length, select, length-select-le}
use vpn_pulse.Prelude.Tables.{count_where}
use vpn_pulse.Collectors.Helper.{Peers, System, Payload}
use vpn_pulse.Collectors.Facts.{ever_of, within, engine_is_ok, Counters, metrics_from}

within-le : (a b : ℕ) (ages : List ℕ) → a ≤ b → within a ages ≤ within b ages
unfolding count_where select
within-le a b [] h = omega arith
within-le a b (x ∷ ages) h = ground (arith, within-le a b ages h)

within-length : (a : ℕ) (ages : List ℕ) → within a ages ≤ length ages
unfolding count_where
within-length a ages = length-select-le (λ x. leb x a) ages

-- `n <= m` where both are given; they are given together.
abbrev pub IsAtMost : Option ℕ → Option ℕ → Type 0
IsAtMost none none = Unit
IsAtMost (some n) (some m) = n ≤ m
IsAtMost _ _ = ⊥

-- The counts of a server are in order: who is connected now is one of those who were within a day,
-- and these are among all who ever connected. Either all three are given or none, and the window for
-- "now" is a day at most.
pub metrics_from-counts :
    (freshness observed_at : ℕ) (last : Option Counters) (peers : Peers) (system : System)
    (payload : Payload)
    → freshness ≤ 86400
    → let facts = (metrics_from freshness last peers system payload observed_at).0 in
      IsAtMost facts.connections facts.profiles.active_24h
      × IsAtMost facts.profiles.active_24h facts.profiles.ever_connected
unfolding metrics_from
metrics_from-counts freshness observed_at last peers system payload h = given (engine_is_ok payload)
  where
    given :
        (c : Bool)
        → let ever = ever_of peers.handshake_ages in
          IsAtMost
            (if c then some (within freshness ever) else none)
            (if c then some (within 86400 ever) else none)
          × IsAtMost
              (if c then some (within 86400 ever) else none)
              (if c then some (length ever) else none)
    given true = (
      within-le freshness 86400 (ever_of peers.handshake_ages) h,
      within-length 86400 (ever_of peers.handshake_ages),
    )
    given false = (tt, tt)
