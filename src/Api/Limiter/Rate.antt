-- ===== src/Api/Limiter/Rate.antt =====
-- How many requests a client gets through.
use mathlib.Core.Path.{subst}
use native.Mathlib.Nat.{mul-le-mul_right}
use vpn_pulse.Prelude.{
  ℕ, suc, ◌+◌, ◌-◌, ◌*◌, ◌≤◌, ◌<◌, not, ◌&&◌, ◌≡◌, refl, ap, ◌∙◌, Option, none, some, List, [], ◌∷◌,
  ◌++◌, if◌then◌else◌, ◌==◌, ==-refl, Eq, arith,
}
use vpn_pulse.Prelude.Lists.{length, length-append, drop, select, length-select-le}
use vpn_pulse.Api.Limiter.{
  token, Bucket, refill, is_allowed, spend, bucket_of, without, store_bucket, allow,
}

-- What a bucket could spend at an instant.
abbrev worth : ℕ → ℕ → Option Bucket → ℕ
worth per_minute now b = (refill per_minute now b).tokens

split_time :
    (now at last p : ℕ) → now ≤ at → at ≤ last → (last - now) * p ≡ (last - at) * p + (at - now) * p
split_time now at last p h k =
    let whole : last - now ≡ (last - at) + (at - now) = omega arith in
    omega (arith, ap (λ t. t * p) whole)

worth_later :
    (p now later : ℕ) (b : Option Bucket)
    → now ≤ later
    → worth p later b ≤ worth p now b + (later - now) * p
unfolding refill
worth_later p now later none h = omega arith
worth_later p now later (some b) h =
    let longer : later - b.updated ≤ (now - b.updated) + (later - now) = omega arith in
    omega (arith, mul-le-mul_right p longer)

-- A request takes a token from what its bucket is worth, or nothing.
worth-spend :
    (p now : ℕ) (b : Option Bucket)
    → worth p now (some (spend (refill p now b)))
        + (if is_allowed (refill p now b) then token else 0)
      ≡ worth p now b
unfolding refill spend
worth-spend p now none = ground arith
worth-spend p now (some b) = ground arith

module _ {ℓ} {K : Type ℓ} ⦃e : Eq K⦄ where
  -- With room for one more key, no key leaves.
  store_bucket_room :
      (max_keys : ℕ) (k : K) (b : Bucket) (buckets : List (K × Bucket))
      → length buckets < max_keys
      → store_bucket max_keys k b buckets ≡ without k buckets ++ (k, b) ∷ []
  unfolding store_bucket without
  store_bucket_room max_keys k b buckets h =
      let stored = without k buckets ++ (k, b) ∷ [] in
      let fits : length stored - max_keys ≡ 0 = omega (
        arith,
        h,
        length-append (without k buckets) ((k, b) ∷ []),
        length-select-le (λ (entry : K × Bucket). not (entry.0 == k)) buckets,
      ) in
      ap (λ n. drop n stored) fits

  length-store_bucket :
      (max_keys : ℕ) (k : K) (b : Bucket) (buckets : List (K × Bucket))
      → length buckets < max_keys
      → length (store_bucket max_keys k b buckets) ≤ suc (length buckets)
  unfolding without
  length-store_bucket max_keys k b buckets h = omega (
    arith,
    ap length (store_bucket_room max_keys k b buckets h),
    length-append (without k buckets) ((k, b) ∷ []),
    length-select-le (λ (entry : K × Bucket). not (entry.0 == k)) buckets,
  )

  bucket_of-append :
      (j k : K) (b : Bucket) (buckets : List (K × Bucket))
      → bucket_of j (without k buckets ++ (k, b) ∷ [])
        ≡ (if k == j then some b else bucket_of j buckets)
  unfolding bucket_of without select
  bucket_of-append j k b [] = refl
  bucket_of-append j k b ((i, c) ∷ buckets) = ground (arith, bucket_of-append j k b buckets)

  -- With room for one more key, only the bucket of the key changes.
  bucket_of-store_bucket :
      (max_keys : ℕ) (j k : K) (b : Bucket) (buckets : List (K × Bucket))
      → length buckets < max_keys
      → bucket_of j (store_bucket max_keys k b buckets)
        ≡ (if k == j then some b else bucket_of j buckets)
  bucket_of-store_bucket max_keys j k b buckets h =
      ap (bucket_of j) (store_bucket_room max_keys k b buckets h) ∙ bucket_of-append j k b buckets

  -- Requests with their keys and times, in the order of time, none after the last.
  abbrev pub IsTimed : ℕ → List (K × ℕ) → ℕ → Type 0
  IsTimed now [] last = now ≤ last
  IsTimed now ((k, at) ∷ requests) last = (now ≤ at) × IsTimed at requests last

  IsTimed-le :
      (now : ℕ) (requests : List (K × ℕ)) (last : ℕ) → IsTimed now requests last → now ≤ last
  IsTimed-le now [] last h = h
  IsTimed-le now ((k, at) ∷ requests) last h = omega (arith, h.0, IsTimed-le at requests last h.1)

  module _ (max_keys : ℕ) (limit : K → ℕ) where
    -- The number of requests of a key that are let through.
    unfoldable pub granted : K → List (K × ℕ) → List (K × Bucket) → ℕ
    unfolding allow
    granted k [] buckets = 0
    granted k ((j, at) ∷ requests) buckets =
        let (allowed, _, buckets') = allow max_keys (limit j) at j buckets in
        let rest = granted k requests buckets' in if j == k && allowed then suc rest else rest

    granted-worth :
        (k : K) (requests : List (K × ℕ)) (buckets : List (K × Bucket)) (now last : ℕ)
        → IsTimed now requests last
        → length buckets + length requests ≤ max_keys
        → granted k requests buckets * token
          ≤ worth (limit k) now (bucket_of k buckets) + (last - now) * limit k
    unfolding granted allow
    granted-worth k [] buckets now last timed room = omega arith
    granted-worth k ((j, at) ∷ requests) buckets now last timed room =
        let b = refill (limit j) at (bucket_of j buckets) in
        let buckets' = store_bucket max_keys j (spend b) buckets in
        let fits : length buckets < max_keys = omega (arith, room) in
        let room' : length buckets' + length requests ≤ max_keys =
          omega (arith, length-store_bucket max_keys j (spend b) buckets fits, room) in
        let at_last = IsTimed-le at requests last timed.1 in
        elim (e.dec j k) [
          | yes same ↦
              let stored : bucket_of j buckets' ≡ some (spend b) =
                ground
                  (arith, bucket_of-store_bucket max_keys j j (spend b) buckets fits, ==-refl j) in
              let rest = granted-worth j requests buckets' at last timed.1 room' in
              let spent = rw stored at rest in
              subst
                (λ i.
                  granted i ((j, at) ∷ requests) buckets * token
                  ≤ worth (limit i) now (bucket_of i buckets) + (last - now) * limit i)
                same
                (ground (
                  arith,
                  ==-refl j,
                  spent,
                  worth-spend (limit j) at (bucket_of j buckets),
                  worth_later (limit j) now at (bucket_of j buckets) timed.0,
                  split_time now at last (limit j) timed.0 at_last,
                ))
          | no other ↦
              let stored : bucket_of k buckets' ≡ bucket_of k buckets =
                ground (arith, bucket_of-store_bucket max_keys k j (spend b) buckets fits, other) in
              let rest = granted-worth k requests buckets' at last timed.1 room' in
              ground (
                arith,
                other,
                rw stored at rest,
                worth_later (limit k) now at (bucket_of k buckets) timed.0,
                split_time now at last (limit k) timed.0 at_last,
              )
        ]

    -- As long as the limiter has room for a key of each request, the requests of one key that it
    -- lets through from a first instant to a last one are no more than its limit and what the time
    -- between the two earns, at the rate of the limit in a minute. Times do not run back.
    pub granted_bound :
        (k : K) (requests : List (K × ℕ)) (first last : ℕ)
        → IsTimed first requests last
        → length requests ≤ max_keys
        → granted k requests [] * token ≤ limit k * token + (last - first) * limit k
    unfolding bucket_of refill
    granted_bound k requests first last timed room =
        granted-worth k requests [] first last timed (omega (arith, room))
