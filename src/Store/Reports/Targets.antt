-- ===== src/Store/Reports/Targets.antt =====
-- The observations that a report leaves: one for each of its targets that is a server.
use mathlib.Core.Option
use vpn_pulse.Prelude.{
  ℕ, String, Bool, true, false, ◌&&◌, ◌≡◌, refl, ◌∙◌, ◌↔◌, none, some, List, [], ◌∷◌, map,
  if◌then◌else◌, ◌==◌, string_eq, arith,
}
use vpn_pulse.Prelude.Lists.{any, select, find, nonempty-select, any-select}
use vpn_pulse.Prelude.Groups.{group_by, find-group_by}
use vpn_pulse.Domain.Models.{success, failure, not_run, result_eq}
use vpn_pulse.Store.Tables.{Settings, ObservationRow, Database}
use vpn_pulse.Store.Probes.{ProbeSummary}
use vpn_pulse.Store.Reports.{
  CheckResult, Payload, Hashing, ran, target_result, observation_row, known, known_targets,
}

abbrev pub failed : CheckResult → Bool
failed i = i.result == failure

any-ran : (items : List CheckResult) → any failed items ≡ true → any ran items ≡ true
unfolding any
any-ran [] h = h
any-ran (i ∷ is) h = ground (arith, any-ran is)

any_failed_ran :
    (items : List CheckResult)
    → any (λ i. if ran i then failed i else false) items ≡ any failed items
unfolding any
any_failed_ran [] = refl
any_failed_ran (i ∷ is) = ground (arith, any_failed_ran is)

-- The result for a target is a failure exactly when one of its checks failed, `not_run` exactly when
-- none ran, and otherwise a success.
pub target_result_cases :
    (items : List CheckResult)
    → ((target_result items ≡ failure) ↔ (any failed items ≡ true))
      × ((target_result items ≡ not_run) ↔ (any ran items ≡ false))
      × ((target_result items ≡ success) ↔ ((any ran items ≡ true) × (any failed items ≡ false)))
unfolding target_result
target_result_cases items =
    let some_ran = nonempty-select ran items in
    let some_failed = any-select failed ran items ∙ any_failed_ran items in
    ground (arith, some_ran, some_failed, any-ran items)

find-select_key :
    (p : String → Bool) (k : String) (g : List (String × List CheckResult))
    → find (λ (j, _). j == k) (select (λ (j, _). p j) g)
      ≡ (if p k then find (λ (j, _). j == k) g else none)
unfolding find select
find-select_key p k [] = ground arith
find-select_key p k ((j, ys) ∷ g) = ground (arith, find-select_key p k g)

module _ (s : Settings) (h : Hashing) (probe : ProbeSummary) (payload : Payload) (now : ℕ) where
  find-map_rows :
      (k : String) (g : List (String × List CheckResult))
      → find
          (λ (o : ObservationRow). o.server_id == k)
          (map (observation_row s h probe payload now) g)
        ≡ Option.map (observation_row s h probe payload now) (find (λ (j, _). j == k) g)
  unfolding find
  find-map_rows k [] = refl
  find-map_rows k ((j, ys) ∷ g) = ground (arith, find-map_rows k g)

  -- The new observation of a server: none where the report has no result for it, or where it is no
  -- server of the database; otherwise the one made of all its results, in their order.
  pub observation_of_target :
      (db : Database) (target : String)
      → find
          (λ (o : ObservationRow). o.server_id == target)
          (map (observation_row s h probe payload now) (known_targets s h probe payload now db))
        ≡ (if known s h probe payload now db target
              && any (λ (i : CheckResult). i.target_id == target) payload.results
            then some (
                observation_row s h probe payload now
                  (target, select (λ (i : CheckResult). i.target_id == target) payload.results))
            else none)
  unfolding known_targets
  observation_of_target db target =
      let groups = group_by (λ (i : CheckResult). i.target_id) payload.results in
      ground (
        arith,
        find-map_rows target (select (λ (j, _). known s h probe payload now db j) groups),
        find-select_key (known s h probe payload now db) target groups,
        find-group_by (λ (i : CheckResult). i.target_id) target payload.results,
      )
