-- ===== src/Domain/Evidence.antt =====
-- Which observations `evaluate_scope` reads: those that are fresh and whose route was not found
-- wrong, in the order of `observed_at`, whatever the order in which they arrive.
use vpn_pulse.Prelude.{
  ℕ, ◌<◌, Bool, false, ◌≡◌, sym, ◌∙◌, ap, List, ◌∷◌, ◌++◌, if◌then◌else◌, arith,
}
use vpn_pulse.Prelude.Lists.{select, select-append, select-select}
use vpn_pulse.Prelude.Sorting.{sort, select-sort, sort_swap, by_key, by_key-IsOrder}
use vpn_pulse.Domain.Models.{Observation}
use vpn_pulse.Domain.Evaluator.{route_ok, is_fresh, fresh_items, evaluate_fresh, evaluate_scope}

-- What counts as evidence at an instant.
abbrev pub is_evidence : ℕ → Observation → Bool
is_evidence now o = if route_ok o then is_fresh now o else false

abbrev pub by_time : Observation → Observation → Bool
by_time = by_key (λ o. o.observed_at)

module _ (now : ℕ) where
  pub fresh_items-eq-sort :
      (items : List Observation)
      → fresh_items now items ≡ sort by_time (select (is_evidence now) items)
  unfolding fresh_items
  fresh_items-eq-sort items =
      select-sort (by_key-IsOrder (λ o. o.observed_at)) (is_fresh now) (select route_ok items)
      ∙ ap (sort by_time) (select-select (is_fresh now) route_ok items)

  select_skip :
      (p : Observation → Bool) (xs ys : List Observation) (o : Observation)
      → p o ≡ false
      → select p (xs ++ o ∷ ys) ≡ select p (xs ++ ys)
  unfolding select
  select_skip p xs ys o h = ground (arith, select-append p xs (o ∷ ys), select-append p xs ys)

  -- A selection from the evidence does not see an observation that fails its test.
  pub select-fresh_items_skip :
      (q : Observation → Bool) (xs ys : List Observation) (o : Observation)
      → q o ≡ false
      → select q (fresh_items now (xs ++ o ∷ ys)) ≡ select q (fresh_items now (xs ++ ys))
  select-fresh_items_skip q xs ys o h = selected (xs ++ o ∷ ys) ∙ step ∙ sym (selected (xs ++ ys))
    where
      both : Observation → Bool
      both x = if is_evidence now x then q x else false

      selected :
          (items : List Observation)
          → select q (fresh_items now items) ≡ sort by_time (select both items)
      selected items =
          ap (select q) (fresh_items-eq-sort items)
          ∙ select-sort (by_key-IsOrder (λ o. o.observed_at)) q (select (is_evidence now) items)
          ∙ ap (sort by_time) (select-select q (is_evidence now) items)

      step : sort by_time (select both (xs ++ o ∷ ys)) ≡ sort by_time (select both (xs ++ ys))
      step = ap (sort by_time) (select_skip both xs ys o (ground arith))

  select_swap :
      (xs ys : List Observation) (a b : Observation)
      → a.observed_at < b.observed_at
      → sort by_time (select (is_evidence now) (xs ++ a ∷ b ∷ ys))
        ≡ sort by_time (select (is_evidence now) (xs ++ b ∷ a ∷ ys))
  unfolding select
  select_swap xs ys a b h =
      let p = is_evidence now in
      ground (
        arith,
        select-append p xs (a ∷ b ∷ ys),
        select-append p xs (b ∷ a ∷ ys),
        sort_swap (by_key-IsOrder (λ o. o.observed_at)) a b (select p xs) (select p ys)
            (ground arith) (ground arith),
      )

  module _ (expected confirmations : ℕ) where
    -- An observation that is stale, or whose probe found that its traffic took another route,
    -- changes nothing of the evaluation, wherever it stands among the others.
    pub evaluate_scope_skip :
        (xs ys : List Observation) (o : Observation)
        → is_evidence now o ≡ false
        → evaluate_scope (xs ++ o ∷ ys) now expected confirmations
          ≡ evaluate_scope (xs ++ ys) now expected confirmations
    unfolding evaluate_scope
    evaluate_scope_skip xs ys o h = ap (evaluate_fresh expected confirmations) (
        fresh_items-eq-sort (xs ++ o ∷ ys)
        ∙ ap (sort by_time) (select_skip (is_evidence now) xs ys o h)
        ∙ sym (fresh_items-eq-sort (xs ++ ys)))

    -- Two neighbours observed at different instants may be handed over in either order.
    pub evaluate_scope_swap :
        (xs ys : List Observation) (a b : Observation)
        → a.observed_at < b.observed_at
        → evaluate_scope (xs ++ a ∷ b ∷ ys) now expected confirmations
          ≡ evaluate_scope (xs ++ b ∷ a ∷ ys) now expected confirmations
    unfolding evaluate_scope
    evaluate_scope_swap xs ys a b h = ap (evaluate_fresh expected confirmations) (
        fresh_items-eq-sort (xs ++ a ∷ b ∷ ys)
        ∙ select_swap xs ys a b h
        ∙ sym (fresh_items-eq-sort (xs ++ b ∷ a ∷ ys)))
