-- ===== src/Prelude/Lists.antt =====
-- Python's comprehensions, `any`, `all`, `len` and slices, over the native numbers.
use Prim.Native.Nat.{ℕ, zero, suc, ◌+◌, ◌-◌, ◌≤◌, ◌<◌, min}
use mathlib.Core.Path.{◌≡◌, refl, sym, ap, ◌∙◌}
use mathlib.Core.Bool.{Bool, true, false, ◌||◌}
use mathlib.Core.List.{List, [], ◌∷◌, ◌++◌}
use mathlib.Core.Option.{Option, none, some}
use native.Mathlib.Omega.{arith}
use vpn_pulse.Prelude.Tests.{if◌then◌else◌, Eq, contains}

module _ {ℓ} {A : Type ℓ} where
  abbrev pub length : List A → ℕ
  length [] = 0
  length (x ∷ xs) = suc (length xs)

  abbrev pub drop : ℕ → List A → List A
  drop zero xs = xs
  drop (suc n) [] = []
  drop (suc n) (x ∷ xs) = drop n xs

  abbrev pub take : ℕ → List A → List A
  take zero xs = []
  take (suc n) [] = []
  take (suc n) (x ∷ xs) = x ∷ take n xs

  pub take-drop : (n : ℕ) (xs : List A) → take n xs ++ drop n xs ≡ xs
  take-drop zero xs = refl
  take-drop (suc n) [] = refl
  take-drop (suc n) (x ∷ xs) = ap (λ ys. x ∷ ys) (take-drop n xs)

  pub take-take-suc : (n : ℕ) (xs : List A) → take n (take (suc n) xs) ≡ take n xs
  take-take-suc zero xs = refl
  take-take-suc (suc n) [] = refl
  take-take-suc (suc n) (x ∷ xs) = ap (λ ys. x ∷ ys) (take-take-suc n xs)

  pub take_all : (n : ℕ) (xs : List A) → length xs ≤ n → take n xs ≡ xs
  take_all zero [] h = refl
  take_all zero (x ∷ xs) h = absurd (omega (arith, h))
  take_all (suc n) [] h = refl
  take_all (suc n) (x ∷ xs) h = ap (λ ys. x ∷ ys) (take_all n xs (omega (arith, h)))

  drop-nil : (n : ℕ) → drop n [] ≡ []
  drop-nil zero = refl
  drop-nil (suc n) = refl

  pub drop-drop : (n m : ℕ) (xs : List A) → drop n (drop m xs) ≡ drop (m + n) xs
  drop-drop n zero xs = ap (λ k. drop k xs) (omega arith)
  drop-drop n (suc m) [] = drop-nil n ∙ sym (drop-nil (suc m + n))
  drop-drop n (suc m) (x ∷ xs) = drop-drop n m xs ∙ ap (λ k. drop k (x ∷ xs)) (suc_add m n)
    where
      suc_add : (a b : ℕ) → suc (a + b) ≡ suc a + b
      suc_add a b = omega arith

  pub length-drop : (n : ℕ) (xs : List A) → length (drop n xs) ≡ length xs - n
  length-drop zero xs = omega arith
  length-drop (suc n) [] = omega arith
  length-drop (suc n) (x ∷ xs) = omega (arith, length-drop n xs)

  pub length-take : (n : ℕ) (xs : List A) → length (take n xs) ≡ min n (length xs)
  length-take zero xs = omega arith
  length-take (suc n) [] = omega arith
  length-take (suc n) (x ∷ xs) = omega (arith, length-take n xs)

  -- `[x for x in xs if p(x)]`
  unfoldable pub select : (A → Bool) → List A → List A
  select p [] = []
  select p (x ∷ xs) = let rest = select p xs in if p x then x ∷ rest else rest

  unfoldable pub any : (A → Bool) → List A → Bool
  any p [] = false
  any p (x ∷ xs) = if p x then true else any p xs

  unfoldable pub all : (A → Bool) → List A → Bool
  all p [] = true
  all p (x ∷ xs) = if p x then all p xs else false

  -- Truth of a list: `if xs`.
  abbrev pub nonempty : List A → Bool
  nonempty [] = false
  nonempty (x ∷ xs) = true

  -- A predicate on every element, by recursion, so that the tactics read it.
  abbrev pub All {κ} : (A → Type κ) → List A → Type κ
  All P [] = Unit
  All P (x ∷ xs) = P x × All P xs

  pub All-weaken {κ κ'} :
      {P : A → Type κ} {Q : A → Type κ'} (xs : List A) → ((x : A) → P x → Q x) → All P xs → All Q xs
  All-weaken [] f a = tt
  All-weaken (x ∷ xs) f a = (f x a.0, All-weaken xs f a.1)

  -- Where a list holds an element.
  abbrev pub IsIn : A → List A → Type ℓ
  IsIn x xs = (front : List A) × (back : List A) × (xs ≡ front ++ x ∷ back)

  pub All-IsIn : (xs : List A) → All (λ x. IsIn x xs) xs
  All-IsIn [] = tt
  All-IsIn (x ∷ xs) =
      (([], xs, refl), All-weaken xs (λ y h. (x ∷ h.0, h.1, ap (λ ys. x ∷ ys) h.2)) (All-IsIn xs))

  pub length-append : (xs ys : List A) → length (xs ++ ys) ≡ length xs + length ys
  length-append [] ys = omega arith
  length-append (x ∷ xs) ys = omega (arith, length-append xs ys)

  pub select-append :
      (p : A → Bool) (xs ys : List A) → select p (xs ++ ys) ≡ select p xs ++ select p ys
  unfolding select
  select-append p [] ys = refl
  select-append p (x ∷ xs) ys = ground (arith, select-append p xs ys)

  pub length-select-le : (p : A → Bool) (xs : List A) → length (select p xs) ≤ length xs
  unfolding select
  length-select-le p [] = omega arith
  length-select-le p (x ∷ xs) = ground (arith, length-select-le p xs)

  -- Two selections are one, by both tests.
  pub select-select :
      (p q : A → Bool) (xs : List A)
      → select p (select q xs) ≡ select (λ x. if q x then p x else false) xs
  unfolding select
  select-select p q [] = refl
  select-select p q (x ∷ xs) = ground (arith, select-select p q xs)

  pub all-select : (p : A → Bool) (xs : List A) → all p (select p xs) ≡ true
  unfolding select all
  all-select p [] = refl
  all-select p (x ∷ xs) = ground (arith, all-select p xs)

  pub any-append :
      (p : A → Bool) (xs ys : List A) → any p (xs ++ ys) ≡ (if any p xs then true else any p ys)
  unfolding any
  any-append p [] ys = refl
  any-append p (x ∷ xs) ys = ground (arith, any-append p xs ys)

  -- A selection is empty exactly when no element passes.
  pub nonempty-select : (p : A → Bool) (xs : List A) → nonempty (select p xs) ≡ any p xs
  unfolding select any
  nonempty-select p [] = refl
  nonempty-select p (x ∷ xs) = ground (arith, nonempty-select p xs)

  pub any_or_left :
      (p q : A → Bool) (xs : List A) → any p xs ≡ true → any (λ x. p x || q x) xs ≡ true
  unfolding any
  any_or_left p q [] h = h
  any_or_left p q (x ∷ xs) h = ground (arith, any_or_left p q xs)

  pub any_or_right :
      (p q : A → Bool) (xs : List A) → any q xs ≡ true → any (λ x. p x || q x) xs ≡ true
  unfolding any
  any_or_right p q [] h = h
  any_or_right p q (x ∷ xs) h = ground (arith, any_or_right p q xs)

  -- `next((x for x in xs if p(x)), None)`
  unfoldable pub find : (A → Bool) → List A → Option A
  find p [] = none
  find p (x ∷ xs) = if p x then some x else find p xs

  pub find_sound : (p : A → Bool) (xs : List A) {x : A} → find p xs ≡ some x → p x ≡ true
  unfolding find
  find_sound p [] h = cc
  find_sound p (y ∷ xs) {x} h = ground (arith, find_sound p xs {x = x})

  pub find-any :
      (p q : A → Bool) (xs : List A) {x : A} → find p xs ≡ some x → q x ≡ true → any q xs ≡ true
  unfolding find any
  find-any p q [] h k = cc
  find-any p q (y ∷ xs) {x} h k = ground (arith, find-any p q xs {x = x})

  pub find-none : (p : A → Bool) (xs : List A) → any p xs ≡ false → find p xs ≡ none
  unfolding find any
  find-none p [] h = refl
  find-none p (y ∷ xs) h = ground (arith, find-none p xs)

  pub any-select :
      (p q : A → Bool) (xs : List A)
      → any p (select q xs) ≡ any (λ x. if q x then p x else false) xs
  unfolding any select
  any-select p q [] = refl
  any-select p q (x ∷ xs) = ground (arith, any-select p q xs)

-- The elements without repetition, `set(xs)`, of which the code takes the size.
module _ {ℓ} {A : Type ℓ} ⦃e : Eq A⦄ where
  unfoldable pub dedup : List A → List A
  dedup [] = []
  dedup (x ∷ xs) = let rest = dedup xs in if contains rest x then rest else x ∷ rest

  pub length-dedup-le : (xs : List A) → length (dedup xs) ≤ length xs
  unfolding dedup
  length-dedup-le [] = omega arith
  length-dedup-le (x ∷ xs) = ground (arith, length-dedup-le xs)

  pub length-dedup_pos : (x : A) (xs : List A) → 0 < length (dedup (x ∷ xs))
  unfolding dedup
  length-dedup_pos x xs = dedup_pos (dedup xs)
    where
      dedup_pos : (rest : List A) → 0 < length (if contains rest x then rest else x ∷ rest)
      dedup_pos [] = omega arith
      dedup_pos (y ∷ ys) = ground arith
