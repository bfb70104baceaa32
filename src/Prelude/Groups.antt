-- ===== src/Prelude/Groups.antt =====
-- A dict of lists that is filled by `setdefault(key, []).append(x)`, in insertion order.
use mathlib.Core.Path.{◌≡◌, refl, sym, ◌∙◌}
use mathlib.Core.Logic.{◌↔◌, inl, inr}
use mathlib.Core.Option.{none, some}
use mathlib.Core.Bool.{Bool, true, false}
use mathlib.Core.List.{List, [], ◌∷◌, ◌++◌, append-nil, append_assoc}
use native.Mathlib.Omega.{arith}
use vpn_pulse.Prelude.Tests.{if◌then◌else◌, Eq, ◌==◌, Bool-cases}
use vpn_pulse.Prelude.Lists.{select, any, all, find}

module _ {ℓ κ} {K : Type ℓ} {A : Type κ} ⦃e : Eq K⦄ where
  push : K → A → List (K × List A) → List (K × List A)
  push k x [] = (k, x ∷ []) ∷ []
  push k x ((j, ys) ∷ g) = if j == k then (j, ys ++ x ∷ []) ∷ g else (j, ys) ∷ push k x g

  group_from : (A → K) → List (K × List A) → List A → List (K × List A)
  unfolding push
  group_from key g [] = g
  group_from key g (x ∷ xs) = group_from key (push (key x) x g) xs

  unfoldable pub group_by : (A → K) → List A → List (K × List A)
  unfolding group_from
  group_by key = group_from key []

  -- `groups.get(k, [])`
  unfoldable pub members : K → List (K × List A) → List A
  members k [] = []
  members k ((j, ys) ∷ g) = if j == k then ys else members k g

  abbrev pub has_key : K → List (K × List A) → Bool
  has_key k [] = false
  has_key k ((j, _) ∷ g) = if j == k then true else has_key k g

  abbrev pub NodupKeys : List (K × List A) → Type 0
  NodupKeys [] = Unit
  NodupKeys ((k, _) ∷ g) = (has_key k g ≡ false) × NodupKeys g

  members-push :
      (k j : K) (x : A) (g : List (K × List A))
      → members k (push j x g) ≡ (if j == k then members k g ++ x ∷ [] else members k g)
  unfolding members push
  members-push k j x [] = ground arith
  members-push k j x ((i, ys) ∷ g) = ground (arith, members-push k j x g)

  members-group_from :
      (key : A → K) (k : K) (g : List (K × List A)) (xs : List A)
      → members k (group_from key g xs) ≡ members k g ++ select (λ x. key x == k) xs
  unfolding group_from select
  members-group_from key k g [] = sym (append-nil _)
  members-group_from key k g (x ∷ xs) = ground (
    arith,
    members-group_from key k (push (key x) x g) xs,
    members-push k (key x) x g,
    append_assoc (members k g) (x ∷ []) (select (λ x. key x == k) xs),
  )

  -- The group of a key holds the elements of that key, in their order.
  pub members-group_by :
      (key : A → K) (k : K) (xs : List A)
      → members k (group_by key xs) ≡ select (λ x. key x == k) xs
  unfolding group_by members
  members-group_by key k xs = members-group_from key k [] xs

  has_key-push :
      (k j : K) (x : A) (g : List (K × List A))
      → has_key k (push j x g) ≡ (if j == k then true else has_key k g)
  unfolding push
  has_key-push k j x [] = ground arith
  has_key-push k j x ((i, ys) ∷ g) = ground (arith, has_key-push k j x g)

  push-NodupKeys : (k : K) (x : A) (g : List (K × List A)) → NodupKeys g → NodupKeys (push k x g)
  unfolding push
  push-NodupKeys k x [] h = (refl, tt)
  push-NodupKeys k x ((j, ys) ∷ g) h =
      ground (arith, push-NodupKeys k x g h.1, has_key-push j k x g)

  group_from-NodupKeys :
      (key : A → K) (g : List (K × List A)) (xs : List A)
      → NodupKeys g
      → NodupKeys (group_from key g xs)
  unfolding group_from
  group_from-NodupKeys key g [] h = h
  group_from-NodupKeys key g (x ∷ xs) h =
      group_from-NodupKeys key (push (key x) x g) xs (push-NodupKeys (key x) x g h)

  pub group_by-NodupKeys : (key : A → K) (xs : List A) → NodupKeys (group_by key xs)
  unfolding group_by
  group_by-NodupKeys key xs = group_from-NodupKeys key [] xs tt

  -- A group that passes a test, found by a loop over the values of the dict.
  any_group_sound :
      (p : List A → Bool) (g : List (K × List A))
      → NodupKeys g
      → any (λ (_, ys). p ys) g ≡ true
      → (k : K) × (has_key k g ≡ true) × (p (members k g) ≡ true)
  unfolding any members
  any_group_sound p [] n h = cc
  any_group_sound p ((j, ys) ∷ g) n h = elim (Bool-cases (p ys)) [
    | inl e ↦ (j, ground arith, ground arith)
    | inr e ↦
        let (k, found, passes) = any_group_sound p g n.1 (ground arith) in
        (k, ground arith, ground arith)
  ]

  any_group_complete :
      (p : List A → Bool) (g : List (K × List A)) (k : K)
      → p [] ≡ false
      → p (members k g) ≡ true
      → any (λ (_, ys). p ys) g ≡ true
  unfolding any members
  any_group_complete p [] k z h = cc
  any_group_complete p ((j, ys) ∷ g) k z h = ground (arith, any_group_complete p g k z)

  -- A loop over the groups finds one that passes exactly when the elements of some key pass.
  pub any-group_by :
      (p : List A → Bool) (key : A → K) (xs : List A)
      → p [] ≡ false
      → (any (λ (_, ys). p ys) (group_by key xs) ≡ true)
        ↔ ((k : K) × (p (select (λ x. key x == k) xs) ≡ true))
  any-group_by p key xs z = (
    λ h.
        let (k, _, passes) = any_group_sound p (group_by key xs) (group_by-NodupKeys key xs) h in
        (k, rw members-group_by at passes),
    λ (k, passes). any_group_complete p (group_by key xs) k z (rw members-group_by passes),
  )

  all_keys-push :
      (q : K → Bool) (k : K) (x : A) (g : List (K × List A))
      → q k ≡ true
      → all (λ (j, _). q j) g ≡ true
      → all (λ (j, _). q j) (push k x g) ≡ true
  unfolding push all
  all_keys-push q k x [] h m = ground arith
  all_keys-push q k x ((j, ys) ∷ g) h m = ground (arith, all_keys-push q k x g)

  all_keys-group_from :
      (q : K → Bool) (key : A → K) (g : List (K × List A)) (xs : List A)
      → all (λ x. q (key x)) xs ≡ true
      → all (λ (j, _). q j) g ≡ true
      → all (λ (j, _). q j) (group_from key g xs) ≡ true
  unfolding group_from all
  all_keys-group_from q key g [] h m = m
  all_keys-group_from q key g (x ∷ xs) h m =
      all_keys-group_from q key (push (key x) x g) xs (ground arith)
        (all_keys-push q (key x) x g (ground arith) m)

  -- What holds of the key of every element holds of every key.
  pub all_keys-group_by :
      (q : K → Bool) (key : A → K) (xs : List A)
      → all (λ x. q (key x)) xs ≡ true
      → all (λ (j, _). q j) (group_by key xs) ≡ true
  unfolding group_by all
  all_keys-group_by q key xs h = all_keys-group_from q key [] xs h refl

  has_key-group_from :
      (key : A → K) (k : K) (g : List (K × List A)) (xs : List A)
      → has_key k (group_from key g xs) ≡ (if has_key k g then true else any (λ x. key x == k) xs)
  unfolding group_from any
  has_key-group_from key k g [] = ground arith
  has_key-group_from key k g (x ∷ xs) =
      ground (arith, has_key-group_from key k (push (key x) x g) xs, has_key-push k (key x) x g)

  find-members :
      (k : K) (g : List (K × List A))
      → find (λ (j, _). j == k) g ≡ (if has_key k g then some (k, members k g) else none)
  unfolding find members
  find-members k [] = refl
  find-members k ((j, ys) ∷ g) = ground (arith, find-members k g)

  -- The group of a key, if there is one: all its elements, in their order.
  pub find-group_by :
      (key : A → K) (k : K) (xs : List A)
      → find (λ (j, _). j == k) (group_by key xs)
        ≡ (if any (λ x. key x == k) xs then some (k, select (λ x. key x == k) xs) else none)
  unfolding group_by any
  find-group_by key k xs =
      find-members k (group_by key xs) ∙ rw (has_key-group_from key k [] xs, members-group_by) refl
