-- ===== src/Api/Limiter.antt =====
-- vpnpulse/api/security.py, `RateLimiter`. A key stands for the route with the salted digest of the
-- address. Tokens are counted in sixty-millionths, the part that a rate of one a minute earns in a
-- microsecond, so that the sums that the code makes with floats are exact.
pub mod Rate
pub mod Wait
use vpn_pulse.Prelude.{
  ℕ, ◌+◌, ◌-◌, ◌*◌, ◌/◌, max, min, Bool, Option, none, some, List, [], ◌∷◌, ◌++◌, leb, not,
  if◌then◌else◌, ◌==◌, Eq,
}
use vpn_pulse.Prelude.Lists.{length, drop, select}

abbrev pub token : ℕ
token = 60000000

pub record Bucket : Type 0 where
  pub tokens : ℕ
  pub updated : ℕ

-- A new bucket is full; a known one earns what the time since its last use is worth.
unfoldable pub refill : ℕ → ℕ → Option Bucket → Bucket
refill per_minute now none = record { tokens = per_minute * token; updated = now }
refill per_minute now (some b) = record {
  tokens = min (per_minute * token) (b.tokens + (now - b.updated) * per_minute);
  updated = now;
}

abbrev pub is_allowed : Bucket → Bool
is_allowed b = leb token b.tokens

unfoldable pub spend : Bucket → Bucket
spend b = if is_allowed b then record b { tokens = b.tokens - token } else b

-- `max(1, int((1.0 - bucket.tokens) * 60.0 / per_minute + 0.999))`, in thousandths of the
-- microsecond that a rate of one a minute needs.
unfoldable pub retry_after : ℕ → Bucket → ℕ
retry_after per_minute b =
    max 1 (((token - b.tokens) * 1000 + 999000000 * per_minute) / (1000000000 * per_minute))

module _ {ℓ} {K : Type ℓ} ⦃e : Eq K⦄ where
  unfoldable pub bucket_of : K → List (K × Bucket) → Option Bucket
  bucket_of k [] = none
  bucket_of k ((j, b) ∷ buckets) = if j == k then some b else bucket_of k buckets

  -- `pop(key)`
  unfoldable pub without : K → List (K × Bucket) → List (K × Bucket)
  unfolding select
  without k buckets = select (λ (j, _). not (j == k)) buckets

  -- The key goes to the end, and the oldest ones leave: `while len(self.buckets) > self.max_keys`.
  unfoldable pub store_bucket : ℕ → K → Bucket → List (K × Bucket) → List (K × Bucket)
  unfolding without
  store_bucket max_keys k b buckets =
      let stored = without k buckets ++ (k, b) ∷ [] in drop (length stored - max_keys) stored

  unfoldable pub allow : ℕ → ℕ → ℕ → K → List (K × Bucket) → Bool × ℕ × List (K × Bucket)
  allow max_keys per_minute now k buckets =
      let b = refill per_minute now (bucket_of k buckets) in
      (is_allowed b, retry_after per_minute (spend b), store_bucket max_keys k (spend b) buckets)
