-- ===== src/Domain/Evaluator.antt =====
-- vpnpulse/domain/evaluator.py, `evaluate_scope`.
use vpn_pulse.Prelude.{
  ℕ, zero, ◌-◌, max, String, Bool, true, false, not, ◌&&◌, ◌||◌, none, some, List, [], ◌∷◌, map,
  leb, if◌then◌else◌, ◌==◌, string_eq, nat_eq, bool_eq, option_eq,
}
use vpn_pulse.Prelude.Lists.{length, drop, select, any, all, nonempty, dedup}
use vpn_pulse.Prelude.Sorting.{sort, by_key}
use vpn_pulse.Prelude.Groups.{group_by}
use vpn_pulse.Domain.Models.{
  State, operational, degraded, unavailable, unknown, success, failure, result_eq, Observation,
  Evaluation, Ratio,
}

abbrev pub is_failure : Observation → Bool
is_failure item = item.result == failure

abbrev pub valid_full_failure : Observation → Bool
valid_full_failure item =
    is_failure item && item.full_vpn_test && item.control_internet_ok == some true

-- SUCCESS_SOURCES
abbrev pub success_source : String → Bool
success_source source = source == "human_activity" || source == "abroad"

abbrev pub valid_success : Observation → Bool
valid_success item = item.result == success && (success_source item.source || item.full_vpn_test)

-- `item.route_verified is not False`
abbrev pub route_ok : Observation → Bool
route_ok item = not (item.route_verified == some false)

abbrev pub is_fresh : ℕ → Observation → Bool
is_fresh now item = leb now item.fresh_until

-- `items[-n:]`, which is the whole list at n = 0.
unfoldable pub last_items : ℕ → List Observation → List Observation
last_items zero items = items
last_items n items = drop (length items - n) items

-- `max(…)` over a generator that starts from the values seen so far.
unfoldable pub max_of : (Observation → ℕ) → ℕ → List Observation → ℕ
max_of f m [] = m
max_of f m (x ∷ xs) = max_of f (max m (f x)) xs

unfoldable pub max_field : (Observation → ℕ) → List Observation → ℕ
unfolding max_of
max_field f items = max_of f 0 items

-- `items` sorted by `observed_at`, then `fresh`.
unfoldable pub fresh_items : ℕ → List Observation → List Observation
unfolding select sort
fresh_items now observations =
    select (is_fresh now) (sort (by_key (λ o. o.observed_at)) (select route_ok observations))

-- `min(1.0, sources / max(expected_sources, 1))`
unfoldable pub coverage_of : ℕ → ℕ → Ratio
coverage_of sources expected =
    if leb (max expected 1) sources
    then record { num = 1; den = 1 }
    else record { num = sources; den = max expected 1 }

-- The test in the loop over `full_by_source.values()`.
unfoldable pub confirmed_by : ℕ → List Observation → Bool
unfolding last_items all
confirmed_by confirmations items =
    let tail = last_items confirmations items in
    length tail == confirmations && all valid_full_failure tail

unfoldable pub confirmed_failure : ℕ → List Observation → Bool
unfolding any group_by select
confirmed_failure confirmations fresh =
    any (λ (_, items). confirmed_by confirmations items)
      (group_by (λ o. o.source) (select (λ o. o.full_vpn_test) fresh))

-- The chain of `if`s: whether a failure is confirmed, and whether there are strong successes,
-- valid successes and failures.
unfoldable pub conclude : Bool → Bool → Bool → Bool → State × String
conclude confirmed strong valid partial =
    if confirmed && not strong
    then (unavailable, "FULL_TEST_FAILURE_CONFIRMED")
    else if valid && partial
    then (degraded, "CONFLICTING_FRESH_EVIDENCE")
    else if confirmed
    then (unavailable, "FULL_TEST_FAILURE_CONFIRMED")
    else if valid
    then (operational, "FULL_SUCCESS_CONFIRMED")
    else if partial
    then (degraded, "PARTIAL_OR_UNCONFIRMED_FAILURE")
    else (unknown, "NO_CONCLUSIVE_EVIDENCE")

unfoldable pub evaluate_fresh : ℕ → ℕ → List Observation → Evaluation
evaluate_fresh expected confirmations fresh =
    let coverage =
      coverage_of (length (dedup (map (λ (o : Observation). o.source) fresh))) expected in
    let valid_successes = select valid_success fresh in
    let (state, reason) =
      conclude (confirmed_failure confirmations fresh)
        (nonempty (select (λ o. not (o.source == "abroad")) valid_successes))
        (nonempty valid_successes) (nonempty (select is_failure fresh)) in
    if nonempty fresh
    then record {
      state = state;
      reason_code = reason;
      observed_at = some (max_field (λ o. o.observed_at) fresh);
      fresh_until = some (max_field (λ o. o.fresh_until) fresh);
      evidence_count = length fresh;
      coverage = coverage;
    }
    else record {
      state = unknown;
      reason_code = "NO_FRESH_EVIDENCE";
      observed_at = none;
      fresh_until = none;
      evidence_count = 0;
      coverage = coverage;
    }

unfoldable pub evaluate_scope : List Observation → ℕ → ℕ → ℕ → Evaluation
evaluate_scope observations now expected_sources failure_confirmations =
    evaluate_fresh expected_sources failure_confirmations (fresh_items now observations)
