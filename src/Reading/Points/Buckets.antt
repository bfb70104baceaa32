-- ===== src/Reading/Points/Buckets.antt =====
-- The buckets of the chart.
use native.Mathlib.Nat.{le-div_iff_mul-le, div-lt_iff_lt-mul}
use vpn_pulse.Prelude.{ℕ, suc, ◌+◌, ◌-◌, ◌*◌, ◌/◌, ◌≤◌, ◌<◌, ◌≡◌, ◌↔◌, some, arith}
use vpn_pulse.Reading.Points.{bucket_of}

-- The quotient by a positive step is the number whose multiples enclose the dividend.
quotient : (n step i : ℕ) → 0 < step → (n / step ≡ i) ↔ ((i * step ≤ n) × (n < suc i * step))
quotient n step i positive =
    let low : (i ≤ n / step) ↔ (i * step ≤ n) = le-div_iff_mul-le positive in
    let high : (n / step < suc i) ↔ (n < suc i * step) = div-lt_iff_lt-mul positive in
    (
      λ h. (low.0 (omega (arith, h)), high.0 (omega (arith, h))),
      λ (below, above). omega (arith, low.1 below, high.1 above),
    )

-- A bucket is the quotient, where it is small enough.
bucket_of-quotient :
    (start step count t i : ℕ)
    → start ≤ t
    → i < count
    → (bucket_of start step count t ≡ some i) ↔ ((t - start) / step ≡ i)
unfolding bucket_of
bucket_of-quotient start step count t i after inside = ground arith

-- An instant of the window falls into the bucket whose half-open range of one step holds it, and
-- into no other.
pub bucket_of-range :
    (start step count t i : ℕ)
    → 0 < step
    → start ≤ t
    → i < count
    → (bucket_of start step count t ≡ some i)
      ↔ ((start + i * step ≤ t) × (t < start + suc i * step))
bucket_of-range start step count t i positive after inside =
    let to_quotient = bucket_of-quotient start step count t i after inside in
    let to_range = quotient (t - start) step i positive in
    (
      λ h.
          let (below, above) = to_range.0 (to_quotient.0 h) in
          (omega (arith, below), omega (arith, above)),
      λ (below, above). to_quotient.1 (to_range.1 (omega (arith, below), omega (arith, above))),
    )
