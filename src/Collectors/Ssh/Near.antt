-- ===== src/Collectors/Ssh/Near.antt =====
-- What an observation of the collector can say: collectors/ssh.py, `SshCollector.collect`.
use vpn_pulse.Prelude.{
  ℕ, ◌+◌, ◌*◌, ◌/◌, ◌≤◌, leb, List, [], String, ◌≡◌, refl, Option, none, some, Bool-cases, inl, inr,
  ltb, arith,
}
use vpn_pulse.Prelude.Lists.{All}
use vpn_pulse.Clock.{second, seconds}
use vpn_pulse.Domain.Models.{Ratio}
use vpn_pulse.Pipeline.Tables.{Collected, Outcome, items, raised}
use vpn_pulse.Collectors.Helper.{
  Peers, System, Payload, HelperAnswer, answered, refused, Completed, call_helper, num,
}
use vpn_pulse.Collectors.Facts.{Counters, metrics_from}
use vpn_pulse.Collectors.Ssh.{
  believed, observed_at_of, human_activity, observe_at, observe, collect,
}

-- Within a minute of an instant.
abbrev pub IsNear : ℕ → ℕ → Type 0
IsNear now at = (at ≤ now + seconds 60) × (now ≤ at + seconds 60)

-- An observation of this server, from about now.
abbrev pub IsNearItem : String → ℕ → Collected → Type 0
IsNearItem server_id now c = (c.server_id ≡ server_id) × IsNear now c.observed_at

-- What a call of the collector gives: nothing where it raises.
abbrev pub given_by : Outcome → List Collected
given_by (items given) = given
given_by raised = []

abbrev IsNearOr : ℕ → Option ℕ → Type 0
IsNearOr now none = Unit
IsNearOr now (some at) = IsNear now at

believed-IsNear : (now : ℕ) (r : Option Ratio) → IsNearOr now (believed now r)
unfolding believed
believed-IsNear now none = (omega arith, omega arith)
believed-IsNear now (some r) =
    elim (Bool-cases (leb (seconds 253402300800) (r.num * second / r.den))) [
      | inl e ↦ rw e tt
      | inr e ↦ rw e (ground arith)
    ]

module _ (server_id : String) (freshness : ℕ) (last : Option Counters) (now : ℕ) where
  human_activity-IsNearItem :
      (at : ℕ) (active : Option ℕ)
      → IsNear now at
      → All (IsNearItem server_id now) (human_activity server_id at active)
  human_activity-IsNearItem at none near = tt
  human_activity-IsNearItem at (some n) near = elim (Bool-cases (ltb 0 n)) [
    | inl e ↦ rw e ((refl, near), tt)
    | inr e ↦ rw e tt
  ]

  observe_at-IsNearItem :
      (peers : Peers) (system : System) (payload : Payload) (at : Option ℕ)
      → IsNearOr now at
      → All
          (IsNearItem server_id now)
          (given_by (observe_at server_id freshness last peers system payload at).0)
  unfolding observe_at
  observe_at-IsNearItem peers system payload none near = tt
  observe_at-IsNearItem peers system payload (some at) near = (
    (refl, near),
    human_activity-IsNearItem at (metrics_from freshness last peers system payload at).0.connections
        near,
  )

  observe-IsNearItem :
      (answer : HelperAnswer)
      → All (IsNearItem server_id now) (given_by (observe server_id freshness last now answer).0)
  unfolding observe observed_at_of
  observe-IsNearItem (refused error_code) = ((refl, (omega arith, omega arith)), tt)
  observe-IsNearItem (answered peers system payload) =
      observe_at-IsNearItem peers system payload (observed_at_of payload now)
        (believed-IsNear now (num none payload.observed_at))

  -- Whatever the call of the helper comes to, every observation that the collector returns is of its
  -- own server and was made within a minute of now, whatever clock the helper has.
  pub collect-IsNearItem :
      (lower : String → String) (loads : String → Option Payload) (completed : Completed)
      → All
          (IsNearItem server_id now)
          (given_by (collect lower loads server_id freshness last now completed).0)
  unfolding collect
  collect-IsNearItem lower loads completed = observe-IsNearItem (call_helper lower loads completed)
