-- ===== src/Prelude/Sorting.antt =====
-- Python's `sorted` and SQL's ORDER BY: a stable sort by a Boolean order. The orders of the code
-- compare keys, so the order is a parameter of what is proved here.
use Prim.Native.Nat.{ℕ, suc}
use mathlib.Core.Path.{◌≡◌, refl, ◌∙◌, ap, subst}
use mathlib.Core.Logic.{inl, inr}
use mathlib.Core.Bool.{Bool, true, false}
use mathlib.Core.List.{List, [], ◌∷◌, ◌++◌}
use native.Mathlib.Omega.{arith}
use vpn_pulse.Prelude.Tests.{if◌then◌else◌, leb, Bool-cases}
use vpn_pulse.Prelude.Lists.{length, select, any, nonempty, All, IsIn, All-IsIn}

module _ {ℓ} {A : Type ℓ} (le : A → A → Bool) where
  -- An element goes before its equals, which stood after it: the sort is stable.
  unfoldable pub insert : A → List A → List A
  insert x [] = x ∷ []
  insert x (y ∷ ys) = let rest = insert x ys in if le x y then x ∷ y ∷ ys else y ∷ rest

  unfoldable pub sort : List A → List A
  unfolding insert
  sort [] = []
  sort (x ∷ xs) = insert x (sort xs)

  abbrev pub IsSorted : List A → Type 0
  IsSorted [] = Unit
  IsSorted (x ∷ xs) = All (λ y. le x y ≡ true) xs × IsSorted xs

  length-insert : (x : A) (ys : List A) → length (insert x ys) ≡ suc (length ys)
  unfolding insert
  length-insert x [] = refl
  length-insert x (y ∷ ys) = ground (arith, length-insert x ys)

  pub length-sort : (xs : List A) → length (sort xs) ≡ length xs
  unfolding sort
  length-sort [] = refl
  length-sort (x ∷ xs) = length-insert x (sort xs) ∙ ap suc (length-sort xs)

  All-insert {κ} : (P : A → Type κ) (x : A) (ys : List A) → P x → All P ys → All P (insert x ys)
  unfolding insert
  All-insert P x [] p h = (p, tt)
  All-insert P x (y ∷ ys) p h = elim (Bool-cases (le x y)) [
    | inl e ↦ let step : All P (if true then x ∷ y ∷ ys else y ∷ insert x ys) = (p, h) in rw e step
    | inr e ↦ rw e (h.0, All-insert P x ys p h.1)
  ]

  pub All-sort {κ} : (P : A → Type κ) (xs : List A) → All P xs → All P (sort xs)
  unfolding sort
  All-sort P [] h = tt
  All-sort P (x ∷ xs) h = All-insert P x (sort xs) h.0 (All-sort P xs h.1)

  pub All-of_insert {κ} :
      (P : A → Type κ) (x : A) (ys : List A) → All P (insert x ys) → P x × All P ys
  unfolding insert
  All-of_insert P x [] h = (h.0, tt)
  All-of_insert P x (y ∷ ys) h = elim (Bool-cases (le x y)) [
    | inl e ↦
        let split : All P (if true then x ∷ y ∷ ys else y ∷ insert x ys) → P x × All P (y ∷ ys) =
          λ s. s in
        split (rw e at h)
    | inr e ↦
        let split : All P (if false then x ∷ y ∷ ys else y ∷ insert x ys)
            → P y × All P (insert x ys) =
          λ s. s in
        let (py, rest) = split (rw e at h) in
        let (px, pys) = All-of_insert P x ys rest in (px, (py, pys))
  ]

  pub All-of_sort {κ} : (P : A → Type κ) (xs : List A) → All P (sort xs) → All P xs
  unfolding sort
  All-of_sort P [] h = tt
  All-of_sort P (x ∷ xs) h =
      let (px, rest) = All-of_insert P x (sort xs) h in (px, All-of_sort P xs rest)

  -- The first of the sorted list stands in the list.
  pub sort-first : (xs rest : List A) (b : A) → sort xs ≡ b ∷ rest → IsIn b xs
  sort-first xs rest b h =
      (subst (All (λ x. IsIn x xs)) h (All-sort (λ x. IsIn x xs) xs (All-IsIn xs))).0

  any-insert :
      (q : A → Bool) (x : A) (ys : List A) → any q (insert x ys) ≡ (if q x then true else any q ys)
  unfolding insert any
  any-insert q x [] = refl
  any-insert q x (y ∷ ys) = ground (arith, any-insert q x ys)

  pub any-sort : (q : A → Bool) (xs : List A) → any q (sort xs) ≡ any q xs
  unfolding sort any
  any-sort q [] = refl
  any-sort q (x ∷ xs) = ground (arith, any-insert q x (sort xs), any-sort q xs)

  nonempty-insert : (x : A) (ys : List A) → nonempty (insert x ys) ≡ true
  unfolding insert
  nonempty-insert x [] = refl
  nonempty-insert x (y ∷ ys) = ground arith

  pub nonempty-sort : (xs : List A) → nonempty (sort xs) ≡ nonempty xs
  unfolding sort
  nonempty-sort [] = refl
  nonempty-sort (x ∷ xs) = nonempty-insert x (sort xs)

-- A total and transitive order.
pub record IsOrder {ℓ} {A : Type ℓ} (le : A → A → Bool) : Type ℓ where
  pub total : (a b : A) → le a b ≡ false → le b a ≡ true
  pub trans : (a b c : A) → le a b ≡ true → le b c ≡ true → le a c ≡ true

module _ {ℓ} {A : Type ℓ} {le : A → A → Bool} (o : IsOrder le) where
  All-le_trans :
      (x y : A) (zs : List A)
      → le x y ≡ true
      → All (λ z. le y z ≡ true) zs
      → All (λ z. le x z ≡ true) zs
  All-le_trans x y [] h a = tt
  All-le_trans x y (z ∷ zs) h a = (o.trans x y z h a.0, All-le_trans x y zs h a.1)

  insert-IsSorted : (x : A) (ys : List A) → IsSorted le ys → IsSorted le (insert le x ys)
  unfolding insert
  insert-IsSorted x [] s = (tt, tt)
  insert-IsSorted x (y ∷ ys) s = elim (Bool-cases (le x y)) [
    | inl e ↦ rw e ((e, All-le_trans x y ys e s.0), s)
    | inr e ↦
        rw e (All-insert le (λ z. le y z ≡ true) x ys (o.total x y e) s.0, insert-IsSorted x ys s.1)
  ]

  -- The result is sorted.
  pub sort-IsSorted : (xs : List A) → IsSorted le (sort le xs)
  unfolding sort
  sort-IsSorted [] = tt
  sort-IsSorted (x ∷ xs) = insert-IsSorted x (sort le xs) (sort-IsSorted xs)

  insert-below : (x : A) (ys : List A) → All (λ y. le x y ≡ true) ys → insert le x ys ≡ x ∷ ys
  unfolding insert
  insert-below x [] a = refl
  insert-below x (y ∷ ys) a = rw (a.0)

  All-select {κ} : (P : A → Type κ) (p : A → Bool) (xs : List A) → All P xs → All P (select p xs)
  unfolding select
  All-select P p [] a = tt
  All-select P p (x ∷ xs) a = elim (Bool-cases (p x)) [
    | inl e ↦ rw e (a.0, All-select P p xs a.1)
    | inr e ↦ rw e (All-select P p xs a.1)
  ]

  select-insert :
      (p : A → Bool) (x : A) (ys : List A)
      → IsSorted le ys
      → select p (insert le x ys) ≡ (if p x then insert le x (select p ys) else select p ys)
  unfolding select insert
  select-insert p x [] s = ground arith
  select-insert p x (y ∷ ys) s = elim (Bool-cases (le x y)) [
    | inl e ↦ ground (
      arith,
      insert-below x (select p ys)
          (All-select (λ z. le x z ≡ true) p ys (All-le_trans x y ys e s.0)),
    )
    | inr e ↦ ground (arith, select-insert p x ys s.1)
  ]

  -- A selection from the sorted list is the selection, sorted.
  pub select-sort : (p : A → Bool) (xs : List A) → select p (sort le xs) ≡ sort le (select p xs)
  unfolding sort select
  select-sort p [] = refl
  select-sort p (x ∷ xs) =
      ground (arith, select-insert p x (sort le xs) (sort-IsSorted xs), select-sort p xs)

  le_refl : (a : A) → le a a ≡ true
  le_refl a = elim (Bool-cases (le a a)) [ inl e ↦ e | inr e ↦ o.total a a e ]

  -- The first of the sorted list is below every element of the list.
  pub sort-head : (xs rest : List A) (b : A) → sort le xs ≡ b ∷ rest → All (λ y. le b y ≡ true) xs
  sort-head xs rest b h =
      All-of_sort le (λ y. le b y ≡ true) xs
        (rw h (le_refl b, (subst (IsSorted le) h (sort-IsSorted xs)).0))

  insert_swap :
      (a b : A) (ys : List A)
      → le a b ≡ true
      → le b a ≡ false
      → insert le a (insert le b ys) ≡ insert le b (insert le a ys)
  unfolding insert
  insert_swap a b [] h k = ground arith
  insert_swap a b (y ∷ ys) h k = ground (arith, insert_swap a b ys h k, o.trans a b y h)

  -- Two neighbours that the order tells apart may come in either order.
  pub sort_swap :
      (a b : A) (xs ys : List A)
      → le a b ≡ true
      → le b a ≡ false
      → sort le (xs ++ a ∷ b ∷ ys) ≡ sort le (xs ++ b ∷ a ∷ ys)
  unfolding sort
  sort_swap a b [] ys h k = insert_swap a b (sort le ys) h k
  sort_swap a b (x ∷ xs) ys h k = ap (insert le x) (sort_swap a b xs ys h k)

-- Sorting by a number.
module _ {ℓ} {A : Type ℓ} (key : A → ℕ) where
  abbrev pub by_key : A → A → Bool
  by_key a b = leb (key a) (key b)

  pub by_key-IsOrder : IsOrder by_key
  by_key-IsOrder = record { total = λ a b h. ground arith; trans = λ a b c h k. ground arith }
