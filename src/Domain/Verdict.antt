-- ===== src/Domain/Verdict.antt =====
-- What the verdict of `evaluate_scope` says of the evidence, state by state.
use vpn_pulse.Prelude.{
  ℕ, zero, suc, ◌-◌, ◌<◌, String, Bool, true, false, not, ◌≡◌, sym, ◌∙◌, ap, ◌++◌, refl, ◌↔◌, List,
  [], ◌∷◌, if◌then◌else◌, ◌==◌, string_eq, arith, Bool-cases, inl, inr,
}
use vpn_pulse.Prelude.Lists.{
  length, drop, select, any, all, nonempty, nonempty-select, select-select,
}
use vpn_pulse.Prelude.Groups.{any-group_by}
use vpn_pulse.Domain.Evidence.{select-fresh_items_skip}
use vpn_pulse.Domain.Models.{State, operational, unavailable, unknown, Observation}
use vpn_pulse.Domain.Evaluator.{
  is_failure, valid_full_failure, valid_success, fresh_items, confirmed_by, confirmed_failure,
  conclude, evaluate_fresh, evaluate_scope,
}

abbrev pub state_of : List Observation → ℕ → ℕ → ℕ → State
state_of items now expected confirmations = (evaluate_scope items now expected confirmations).state

-- Evidence from where the members sit: a person, or a full test.
abbrev pub strong_success : Observation → Bool
strong_success o = if valid_success o then not (o.source == "abroad") else false

-- The full tests of one source, in the order of time.
abbrev pub full_tests_of : String → List Observation → List Observation
full_tests_of source fresh = select (λ o. o.source == source) (select (λ o. o.full_vpn_test) fresh)

any-drop :
    (p : Observation → Bool) (n : ℕ) (xs : List Observation)
    → any p (drop n xs) ≡ true
    → any p xs ≡ true
unfolding any
any-drop p zero xs h = h
any-drop p (suc n) [] h = h
any-drop p (suc n) (x ∷ xs) h = ground (arith, any-drop p n xs)

any-select :
    (p q : Observation → Bool) (xs : List Observation)
    → any p (select q xs) ≡ true
    → any p xs ≡ true
unfolding any select
any-select p q [] h = h
any-select p q (x ∷ xs) h = ground (arith, any-select p q xs)

failure_of_tail :
    (tail : List Observation)
    → 0 < length tail
    → all valid_full_failure tail ≡ true
    → any is_failure tail ≡ true
unfolding all any
failure_of_tail [] h k = absurd (omega arith)
failure_of_tail (x ∷ xs) h k = ground arith

confirmed_by-failure :
    (n : ℕ) (items : List Observation)
    → 0 < n
    → confirmed_by n items ≡ true
    → any is_failure items ≡ true
unfolding confirmed_by
confirmed_by-failure zero items h k = absurd (omega arith)
confirmed_by-failure (suc n) items h k =
    any-drop is_failure (length items - suc n) items
      (failure_of_tail (drop (length items - suc n) items) (ground arith) (ground arith))

confirmed_by_nil : (n : ℕ) → 0 < n → confirmed_by n [] ≡ false
unfolding confirmed_by
confirmed_by_nil zero h = absurd (omega arith)
confirmed_by_nil (suc n) h = ground arith

-- A failure is confirmed exactly when the last `n` full tests of some source are valid failures.
pub confirmed_failure_iff :
    (n : ℕ) (fresh : List Observation)
    → 0 < n
    → (confirmed_failure n fresh ≡ true)
      ↔ ((source : String) × (confirmed_by n (full_tests_of source fresh) ≡ true))
unfolding confirmed_failure
confirmed_failure_iff n fresh h =
    any-group_by (confirmed_by n) (λ o. o.source) (select (λ o. o.full_vpn_test) fresh)
      (confirmed_by_nil n h)

confirmed_failure-failure :
    (n : ℕ) (fresh : List Observation)
    → 0 < n
    → confirmed_failure n fresh ≡ true
    → any is_failure fresh ≡ true
confirmed_failure-failure n fresh h k =
    let (source, c) = (confirmed_failure_iff n fresh h).0 k in
    any-select is_failure (λ o. o.full_vpn_test) fresh
      (any-select is_failure (λ o. o.source == source) (select (λ o. o.full_vpn_test) fresh)
        (confirmed_by-failure n (full_tests_of source fresh) h c))

strong-valid :
    (fresh : List Observation) → any strong_success fresh ≡ true → any valid_success fresh ≡ true
unfolding any
strong-valid [] h = h
strong-valid (x ∷ xs) h = elim (Bool-cases (valid_success x)) [
  | inl e ↦ rw e
  | inr e ↦ ground (arith, strong-valid xs)
]

any-nonempty :
    (p : Observation → Bool) (xs : List Observation) → any p xs ≡ true → nonempty xs ≡ true
unfolding any
any-nonempty p [] h = h
any-nonempty p (x ∷ xs) h = refl

-- The state by the four facts that the chain of tests reads.
pub verdict : Bool → Bool → Bool → Bool → State
unfolding conclude
verdict confirmed strong valid partial = (conclude confirmed strong valid partial).0

evaluate_fresh-state :
    (expected n : ℕ) (fresh : List Observation)
    → 0 < n
    → (evaluate_fresh expected n fresh).state
      ≡ verdict
          (confirmed_failure n fresh)
          (any strong_success fresh)
          (any valid_success fresh)
          (any is_failure fresh)
unfolding evaluate_fresh verdict conclude confirmed_failure any
evaluate_fresh-state expected n [] h = refl
evaluate_fresh-state expected n (x ∷ xs) h =
    let fresh = x ∷ xs in
    rw (
      nonempty-select is_failure fresh,
      nonempty-select valid_success fresh,
      select-select,
      nonempty-select,
    )

module _ (items : List Observation) (now expected n : ℕ) (positive : 0 < n) where
  abbrev fresh : List Observation
  fresh = fresh_items now items

  state_of-verdict :
      state_of items now expected n
      ≡ verdict
          (confirmed_failure n fresh)
          (any strong_success fresh)
          (any valid_success fresh)
          (any is_failure fresh)
  unfolding evaluate_scope
  state_of-verdict = evaluate_fresh-state expected n fresh positive

  -- With at least one confirmation required, a scope is unavailable exactly when the last `n` full
  -- tests of some source are failures with a working control connection, and nothing fresh from
  -- where the members sit (a person or a full test) succeeds. Successes from abroad do not count.
  pub state_of-unavailable_iff : (state_of items now expected n ≡ unavailable) ↔ (
      ((source : String) × (confirmed_by n (full_tests_of source fresh) ≡ true))
      × (any strong_success fresh ≡ false))
  unfolding verdict
  state_of-unavailable_iff = (
    λ h. (
      (confirmed_failure_iff n fresh positive).0 (ground (arith, state_of-verdict, facts)),
      ground (arith, state_of-verdict, facts),
    ),
    λ (c, weak).
        let confirmed = (confirmed_failure_iff n fresh positive).1 c in
        ground (arith, state_of-verdict, confirmed),
  )
    where
      facts :
          (confirmed_failure n fresh ≡ true → any is_failure fresh ≡ true)
          × (any strong_success fresh ≡ true → any valid_success fresh ≡ true)
      facts = (confirmed_failure-failure n fresh positive, strong-valid fresh)

  -- With at least one confirmation required, a scope is operational exactly when something fresh
  -- proves that the tunnel works and nothing fresh is a failure.
  pub state_of-operational_iff :
      (state_of items now expected n ≡ operational)
      ↔ ((any valid_success fresh ≡ true) × (any is_failure fresh ≡ false))
  unfolding verdict
  state_of-operational_iff =
      ground
        (arith, state_of-verdict, confirmed_failure-failure n fresh positive, strong-valid fresh)

  -- With at least one confirmation required, a scope is unknown exactly when nothing fresh is a
  -- failure or proves that the tunnel works: a stopped probe and idle members are no failure.
  pub state_of-unknown_iff :
      (state_of items now expected n ≡ unknown)
      ↔ ((any valid_success fresh ≡ false) × (any is_failure fresh ≡ false))
  unfolding verdict
  state_of-unknown_iff =
      ground
        (arith, state_of-verdict, confirmed_failure-failure n fresh positive, strong-valid fresh)

-- A cross-server handshake that succeeds never talks a confirmed outage down: with at least one
-- confirmation required, an unavailable scope stays unavailable when a success from abroad that is
-- no full test is handed over too, wherever it stands among the observations.
pub state_of-unavailable_abroad :
    (xs ys : List Observation) (o : Observation) (now expected n : ℕ)
    → 0 < n
    → o.source ≡ "abroad"
    → o.full_vpn_test ≡ false
    → state_of (xs ++ ys) now expected n ≡ unavailable
    → state_of (xs ++ o ∷ ys) now expected n ≡ unavailable
state_of-unavailable_abroad xs ys o now expected n positive abroad partial h =
    let ((source, c), weak) = (state_of-unavailable_iff (xs ++ ys) now expected n positive).0 h in
    let same = select-fresh_items_skip now (λ x. x.full_vpn_test) xs ys o partial in
    let strong = select-fresh_items_skip now strong_success xs ys o (ground arith) in
    (state_of-unavailable_iff (xs ++ o ∷ ys) now expected n positive).1 (
      (source, rw same c),
      sym (nonempty-select strong_success (fresh_items now (xs ++ o ∷ ys)))
          ∙ ap nonempty strong
          ∙ nonempty-select strong_success (fresh_items now (xs ++ ys))
          ∙ weak,
    )
