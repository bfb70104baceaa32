-- ===== src/Tests/Judging.antt =====
-- The evaluator and the recommendation on concrete evidence.
use vpn_pulse.Prelude.Sorting.{sort}
use vpn_pulse.Prelude.{
  ℕ, ◌+◌, ◌/◌, String, true, false, ◌≡◌, refl, ◌↔◌, none, some, List, [], ◌∷◌, leb, ◌==◌, string_eq,
  option_eq, bool_eq, nat_eq, arith,
}
use vpn_pulse.Prelude.Lists.{any, All, IsIn, select, find}
use vpn_pulse.Prelude.Sorting.{by_key-IsOrder}
use vpn_pulse.Domain.Models.{
  operational, unavailable, ObservationResult, success, failure, Observation, state_eq, result_eq,
}
use vpn_pulse.Domain.Evaluator.{
  is_failure, conclude, confirmed_failure, evaluate_fresh, valid_success, fresh_items, confirmed_by,
  evaluate_scope,
}
use vpn_pulse.Domain.Verdict.{
  state_of, strong_success, full_tests_of, state_of-unavailable_iff, state_of-operational_iff,
}
use vpn_pulse.Domain.Recommender.{
  Loads, ServerCandidate, eligible, key_leb, choose, recommend_server,
}
use vpn_pulse.Domain.Choice.{recommend_server-best}

abbrev seen : String → ObservationResult → ℕ → Observation
seen source result at = record {
  source = source;
  result = result;
  observed_at = at;
  fresh_until = at + 180;
  full_vpn_test = source == "pc";
  control_internet_ok = some true;
  reason_code = none;
  route_verified = some true;
}

abbrev two_failures : List Observation
two_failures = seen "pc" failure 100 ∷ seen "pc" failure 160 ∷ []

abbrev stale : Observation
stale = seen "human_activity" success 1

two_failures-unavailable : state_of two_failures 200 2 2 ≡ unavailable
unfolding evaluate_scope evaluate_fresh fresh_items confirmed_failure confirmed_by conclude
    option_eq bool_eq string_eq result_eq nat_eq
two_failures-unavailable = refl

state_of-unavailable_iff_example : (state_of two_failures 200 2 2 ≡ unavailable) ↔ (
    ((source : String) × (confirmed_by 2 (full_tests_of source (fresh_items 200 two_failures))
        ≡ true))
    × (any strong_success (fresh_items 200 two_failures) ≡ false))
state_of-unavailable_iff_example = state_of-unavailable_iff two_failures 200 2 2 (omega arith)

state_of-operational_iff_example : (state_of two_failures 200 2 2 ≡ operational) ↔ (
    (any valid_success (fresh_items 200 two_failures) ≡ true)
    × (any is_failure (fresh_items 200 two_failures) ≡ false))
state_of-operational_iff_example = state_of-operational_iff two_failures 200 2 2 (omega arith)

abbrev tenths : Loads
tenths = record { Load = ℕ; le = leb; times_1_10 = λ n. n + n / 10 }

abbrev candidate : String → ℕ → ServerCandidate ℕ
candidate id load = record {
  server_id = id;
  evaluation = record {
    state = operational;
    reason_code = "FULL_SUCCESS_CONFIRMED";
    observed_at = some 100;
    fresh_until = some 280;
    evidence_count = 1;
    coverage = record { num = 1; den = 1 };
  };
  load_score = some load;
  complete_protocol_coverage = true;
  priority = 1;
}

abbrev two_servers : List (ServerCandidate ℕ)
two_servers = candidate "fi" 100 ∷ candidate "de" 50 ∷ []

recommended : recommend_server tenths two_servers none ≡ some "de"
unfolding recommend_server eligible key_leb choose option_eq string_eq state_eq sort select find
recommended = refl

recommended_instead : recommend_server tenths two_servers (some "fi") ≡ some "de"
unfolding recommend_server eligible key_leb choose option_eq string_eq state_eq sort select find
recommended_instead = refl

recommend_server-best_example :
    (best : ServerCandidate ℕ) × (best.server_id ≡ "de")
    × IsIn best (select (eligible tenths) two_servers)
    × All (λ c. key_leb tenths best c ≡ true) (select (eligible tenths) two_servers)
recommend_server-best_example =
    recommend_server-best tenths (by_key-IsOrder (λ n. n)) two_servers "de" recommended
