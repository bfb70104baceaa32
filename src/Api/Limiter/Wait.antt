-- ===== src/Api/Limiter/Wait.antt =====
-- How long a client that was turned away has to wait.
use native.Mathlib.Nat.{lt-div-mul-add, mul-le-mul_right}
use vpn_pulse.Prelude.{ℕ, ◌+◌, ◌-◌, ◌*◌, ◌/◌, ◌≤◌, ◌<◌, max, true, false, ◌≡◌, some, arith}
use vpn_pulse.Api.Limiter.{token, Bucket, refill, is_allowed, spend, retry_after}

-- What the announced seconds and a millisecond earn.
earned :
    (missing p later updated : ℕ)
    → 0 < p
    → updated + max 1 ((missing * 1000 + 999000000 * p) / (1000000000 * p)) * 1000000 + 1000 ≤ later
    → missing ≤ (later - updated) * p
earned missing p later updated positive wait =
    let q : ℕ = (missing * 1000 + 999000000 * p) / (1000000000 * p) in
    let bound : missing * 1000 + 999000000 * p < q * (1000000000 * p) + 1000000000 * p =
      lt-div-mul-add (omega arith) in
    let enough : missing ≤ (q * 1000000 + 1000) * p = omega (arith, bound) in
    let waited : (q * 1000000 + 1000) * p ≤ (later - updated) * p =
      mul-le-mul_right p (omega (arith, wait)) in
    omega (arith, enough, waited)

-- A client that was turned away is let in again a millisecond after the announced seconds, when it
-- does not ask before, and the route lets one request a minute through at least.
pub retry_after-is_allowed :
    (per_minute later : ℕ) (b : Bucket)
    → 0 < per_minute
    → is_allowed b ≡ false
    → b.updated + retry_after per_minute (spend b) * 1000000 + 1000 ≤ later
    → is_allowed (refill per_minute later (some (spend b))) ≡ true
unfolding refill spend retry_after
retry_after-is_allowed per_minute later b positive refused wait = ground (
  arith,
  earned (token - b.tokens) per_minute later b.updated positive,
  mul-le-mul_right token positive,
)
