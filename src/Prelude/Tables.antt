-- ===== src/Prelude/Tables.antt =====
-- The statements on a SQL table: a table is the list of its rows in the order of `rowid`.
use Prim.Native.Nat.{ℕ, ◌+◌}
use mathlib.Core.Path.{◌≡◌, refl}
use mathlib.Core.Option
use mathlib.Core.Option.{Option, none, some}
use mathlib.Core.Bool.{Bool, true, false, not}
use mathlib.Core.List.{List, [], ◌∷◌, ◌++◌}
use native.Mathlib.Omega.{arith}
use vpn_pulse.Prelude.Tests.{if◌then◌else◌, Eq, ◌==◌, is_some}
use vpn_pulse.Prelude.Lists.{length, select, select-append, any, all, find}

module _ {ℓ} {A : Type ℓ} where
  -- UPDATE … SET … WHERE …
  unfoldable pub update_where : (A → Bool) → (A → A) → List A → List A
  update_where p f [] = []
  update_where p f (x ∷ xs) = (if p x then f x else x) ∷ update_where p f xs

  -- DELETE … WHERE …
  unfoldable pub delete_where : (A → Bool) → List A → List A
  unfolding select
  delete_where p = select (λ x. not (p x))

  -- SELECT count(*) … WHERE …, and the `rowcount` of an UPDATE or a DELETE
  unfoldable pub count_where : (A → Bool) → List A → ℕ
  unfolding select
  count_where p xs = length (select p xs)

  -- INSERT OR IGNORE: a row that clashes with one of the table is dropped.
  unfoldable pub insert_or_ignore : (A → Bool) → A → List A → List A
  insert_or_ignore clash x xs = if any clash xs then xs else xs ++ x ∷ []

  -- INSERT … ON CONFLICT DO UPDATE
  unfoldable pub upsert : (A → Bool) → (A → A) → A → List A → List A
  upsert clash f x xs = if any clash xs then update_where clash f xs else xs ++ x ∷ []

  abbrev pub updated_or_new : (A → A) → A → Option A → A
  updated_or_new f x none = x
  updated_or_new f x (some y) = f y

  pub length-update_where :
      (p : A → Bool) (f : A → A) (xs : List A) → length (update_where p f xs) ≡ length xs
  unfolding update_where
  length-update_where p f [] = refl
  length-update_where p f (x ∷ xs) = omega (arith, length-update_where p f xs)

  pub update_where-append :
      (p : A → Bool) (f : A → A) (xs ys : List A)
      → update_where p f (xs ++ ys) ≡ update_where p f xs ++ update_where p f ys
  unfolding update_where
  update_where-append p f [] ys = refl
  update_where-append p f (x ∷ xs) ys = cc (update_where-append p f xs ys)

  -- An update that no row meets changes nothing.
  pub update_where_none :
      (p : A → Bool) (f : A → A) (xs : List A) → any p xs ≡ false → update_where p f xs ≡ xs
  unfolding update_where any
  update_where_none p f [] h = refl
  update_where_none p f (x ∷ xs) h = ground (arith, update_where_none p f xs)

  -- An update that leaves the column alone which a test reads.
  pub any-update_where :
      (p q : A → Bool) (f : A → A) (xs : List A)
      → ((x : A) → q (f x) ≡ q x)
      → any q (update_where p f xs) ≡ any q xs
  unfolding any update_where
  any-update_where p q f [] h = refl
  any-update_where p q f (x ∷ xs) h = ground (arith, h x, any-update_where p q f xs h)

  pub insert_or_ignore_clash :
      (clash : A → Bool) (x : A) (xs : List A)
      → any clash xs ≡ true
      → insert_or_ignore clash x xs ≡ xs
  unfolding insert_or_ignore
  insert_or_ignore_clash clash x xs h = rw h

  -- What is deleted and what is kept make up the table.
  pub length-delete_where :
      (p : A → Bool) (xs : List A) → length (delete_where p xs) + count_where p xs ≡ length xs
  unfolding delete_where count_where
  length-delete_where p [] = refl
  length-delete_where p (x ∷ xs) = ground (arith, length-delete_where p xs)

  pub delete_where-append :
      (p : A → Bool) (xs ys : List A)
      → delete_where p (xs ++ ys) ≡ delete_where p xs ++ delete_where p ys
  unfolding delete_where
  delete_where-append p xs ys = select-append (λ x. not (p x)) xs ys

  pub delete_where_again :
      (p : A → Bool) (xs : List A) → delete_where p (delete_where p xs) ≡ delete_where p xs
  unfolding delete_where
  delete_where_again p [] = refl
  delete_where_again p (x ∷ xs) = ground (arith, delete_where_again p xs)

  pub delete_where-all : (p : A → Bool) (xs : List A) → all p xs ≡ true → delete_where p xs ≡ []
  unfolding delete_where all
  delete_where-all p [] h = refl
  delete_where-all p (x ∷ xs) h = ground (arith, delete_where-all p xs)

module _ {ℓ} {A : Type ℓ} where
  -- A search for a column that an update leaves alone.
  pub find-update_where :
      (p q : A → Bool) (f : A → A) (xs : List A)
      → ((x : A) → p (f x) ≡ p x)
      → find p (update_where q f xs) ≡ Option.map (λ x. if q x then f x else x) (find p xs)
  unfolding find update_where
  find-update_where p q f [] h = refl
  find-update_where p q f (x ∷ xs) h = ground (arith, h x, find-update_where p q f xs h)

  pub find-append_new :
      (p : A → Bool) (xs : List A) (x : A)
      → any p xs ≡ false
      → p x ≡ true
      → find p (xs ++ x ∷ []) ≡ some x
  unfolding find any
  find-append_new p [] x h k = ground arith
  find-append_new p (y ∷ ys) x h k = ground (arith, find-append_new p ys x)

  abbrev pub keep_if : (A → Bool) → Option A → Option A
  keep_if p none = none
  keep_if p (some x) = if p x then some x else none

-- A table with a key, as a map from keys to rows.
module _ {ℓ κ} {A : Type ℓ} {K : Type κ} ⦃e : Eq K⦄ (key : A → K) where
  abbrev pub with_key : K → A → Bool
  with_key k x = key x == k

  find-update_key :
      (f : A → A) (k j : K) (xs : List A)
      → ((x : A) → key (f x) ≡ k)
      → find (with_key j) (update_where (with_key k) f xs)
        ≡ (if j == k then Option.map f (find (with_key j) xs) else find (with_key j) xs)
  unfolding find update_where
  find-update_key f k j [] h = ground arith
  find-update_key f k j (x ∷ xs) h = ground (arith, h x, find-update_key f k j xs h)

  find-append_key :
      (x : A) (j : K) (xs : List A)
      → find (with_key j) (xs ++ x ∷ []) ≡ elim (find (with_key j) xs) [
        | some y ↦ some y
        | none ↦ if key x == j then some x else none
      ]
  unfolding find
  find-append_key x j [] = ground arith
  find-append_key x j (y ∷ ys) = ground (arith, find-append_key x j ys)

  find-any : (j : K) (xs : List A) → is_some (find (with_key j) xs) ≡ any (with_key j) xs
  unfolding find any
  find-any j [] = refl
  find-any j (x ∷ xs) = ground (arith, find-any j xs)

  -- An upsert by the key sets the row of its key, and no other.
  pub find-upsert :
      (f : A → A) (x : A) (j : K) (xs : List A)
      → ((y : A) → key (f y) ≡ key x)
      → find (with_key j) (upsert (with_key (key x)) f x xs) ≡ (
          if j == key x
          then some (updated_or_new f x (find (with_key (key x)) xs))
          else find (with_key j) xs)
  unfolding upsert
  find-upsert f x j xs h = ground (
    arith,
    find-update_key f (key x) j xs h,
    find-append_key x j xs,
    find-any j xs,
    find-any (key x) xs,
  )

  -- The primary key: no two rows have the same.
  abbrev pub Unique : List A → Type 0
  Unique [] = Unit
  Unique (x ∷ xs) = (any (with_key (key x)) xs ≡ false) × Unique xs

  find_absent :
      (k : K) (p : A → Bool) (xs : List A)
      → any (with_key k) xs ≡ false
      → find (with_key k) (delete_where p xs) ≡ none
  unfolding find any delete_where
  find_absent k p [] h = refl
  find_absent k p (x ∷ xs) h = ground (arith, find_absent k p xs)

  -- A deletion takes the row of a key away exactly when its test holds of that row.
  pub find-delete_where :
      (p : A → Bool) (k : K) (xs : List A)
      → Unique xs
      → find (with_key k) (delete_where p xs) ≡ keep_if (λ x. not (p x)) (find (with_key k) xs)
  unfolding find delete_where
  find-delete_where p k [] u = refl
  find-delete_where p k (x ∷ xs) u =
      ground (arith, find-delete_where p k xs u.1, find_absent (key x) p xs u.0)
