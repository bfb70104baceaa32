-- ===== src/Alerts/Collapse.antt =====
-- The first loop of `deliver_pending`: every due row is kept or dropped, and one is kept for a
-- scope and a destination.
use vpn_pulse.Prelude.{
  ◌+◌, String, Bool, true, false, ◌≡◌, refl, Option, none, some, List, [], ◌∷◌, ◌++◌, if◌then◌else◌,
  contains, is_some, string_eq, arith, Bool-cases, inl, inr,
}
use vpn_pulse.Prelude.Lists.{length, length-append, any, any-append}
use vpn_pulse.Alerts.Tables.{Notification, destination_eq}
use vpn_pulse.Alerts.Repository.{by_id}
use vpn_pulse.Alerts.Worker.{same_key, cancels, pop, absorb, collapse}

contains-append :
    (xs ys : List String) (k : String)
    → contains (xs ++ ys) k ≡ (if contains xs k then true else contains ys k)
contains-append [] ys k = refl
contains-append (x ∷ xs) ys k = ground (arith, contains-append xs ys k)

-- An id that stands in the dict or among the dropped ones.
abbrev pub listed : String → List Notification → List String → Bool
listed k newest dropped = if any (by_id k) newest then true else contains dropped k

abbrev has_id : String → Option Notification → Bool
has_id k none = false
has_id k (some q) = by_id k q

any-pop :
    (k : String) (row : Notification) (qs : List Notification)
    → any (by_id k) qs ≡ (if has_id k (pop row qs).0 then true else any (by_id k) (pop row qs).1)
unfolding pop any
any-pop k row [] = refl
any-pop k row (q ∷ qs) = ground (arith, any-pop k row qs)

listed-absorb :
    (k : String) (found : Option Notification) (rest : List Notification) (row : Notification)
    (dropped : List String)
    → (if has_id k found then true else if by_id k row then true else listed k rest dropped) ≡ true
    → listed k (absorb (found, rest) row).0 (dropped ++ (absorb (found, rest) row).1) ≡ true
unfolding absorb any
listed-absorb k none rest row dropped h =
    ground (arith, any-append (by_id k) rest (row ∷ []), contains-append dropped [] k)
listed-absorb k (some q) rest row dropped h = ground (
  arith,
  any-append (by_id k) rest (row ∷ []),
  contains-append dropped (q.id ∷ []) k,
  contains-append dropped (q.id ∷ row.id ∷ []) k,
)

-- No row is lost: the id of each is kept in the dict, or dropped.
pub listed-collapse :
    (k : String) (newest : List Notification) (dropped : List String) (rows : List Notification)
    → (if listed k newest dropped then true else any (by_id k) rows) ≡ true
    → listed k (collapse newest dropped rows).0 (collapse newest dropped rows).1 ≡ true
unfolding collapse any
listed-collapse k newest dropped [] h = ground arith
listed-collapse k newest dropped (row ∷ rows) h =
    let (found, rest) = pop row newest in
    let (newest', more) = absorb (found, rest) row in
    listed-collapse k newest' (dropped ++ more) rows
      (ground (arith, listed-absorb k found rest row dropped, any-pop k row newest))

length-pop :
    (row : Notification) (qs : List Notification)
    → length qs ≡ length (pop row qs).1 + (if is_some (pop row qs).0 then 1 else 0)
unfolding pop
length-pop row [] = refl
length-pop row (q ∷ qs) = ground (arith, length-pop row qs)

length-absorb :
    (found : Option Notification) (rest : List Notification) (row : Notification)
    → length (absorb (found, rest) row).0 + length (absorb (found, rest) row).1
      ≡ length rest + (if is_some found then 1 else 0) + 1
unfolding absorb
length-absorb none rest row = omega (arith, length-append rest (row ∷ []))
length-absorb (some q) rest row = ground (arith, length-append rest (row ∷ []))

pub length-collapse :
    (newest : List Notification) (dropped : List String) (rows : List Notification)
    → length (collapse newest dropped rows).0 + length (collapse newest dropped rows).1
      ≡ length newest + length dropped + length rows
unfolding collapse
length-collapse newest dropped [] = omega arith
length-collapse newest dropped (row ∷ rows) =
    let (found, rest) = pop row newest in
    let (newest', more) = absorb (found, rest) row in
    omega (
      arith,
      length-collapse newest' (dropped ++ more) rows,
      length-append dropped more,
      length-absorb found rest row,
      length-pop row newest,
    )

-- No two rows of the dict have one key.
abbrev pub Distinct : List Notification → Type 0
Distinct [] = Unit
Distinct (q ∷ qs) = (any (same_key q) qs ≡ false) × Distinct qs

any-pop_key :
    (a row : Notification) (qs : List Notification)
    → any (same_key a) qs ≡ false
    → any (same_key a) (pop row qs).1 ≡ false
unfolding pop any
any-pop_key a row [] h = refl
any-pop_key a row (q ∷ qs) h = ground (arith, any-pop_key a row qs)

any-same_key :
    (a row : Notification) (qs : List Notification)
    → same_key a row ≡ true
    → any (same_key a) qs ≡ false
    → any (λ q. same_key q row) qs ≡ false
unfolding any
any-same_key a row [] e h = refl
any-same_key a row (q ∷ qs) e h = ground (arith, any-same_key a row qs e)

pop-Distinct :
    (row : Notification) (qs : List Notification)
    → Distinct qs
    → (any (λ q. same_key q row) (pop row qs).1 ≡ false) × Distinct (pop row qs).1
unfolding pop any
pop-Distinct row [] d = (refl, tt)
pop-Distinct row (q ∷ qs) d = elim (Bool-cases (same_key q row)) [
  | inl e ↦ rw e (any-same_key q row qs e d.0, d.1)
  | inr e ↦
      let (fresh, kept) = pop-Distinct row qs d.1 in
      rw (e, e) (fresh, (any-pop_key q row qs d.0, kept))
]

append-Distinct :
    (row : Notification) (qs : List Notification)
    → any (λ q. same_key q row) qs ≡ false
    → Distinct qs
    → Distinct (qs ++ row ∷ [])
unfolding any
append-Distinct row [] h d = (refl, tt)
append-Distinct row (q ∷ qs) h d =
    ground (arith, any-append (same_key q) qs (row ∷ []), append-Distinct row qs)

absorb-Distinct :
    (found : Option Notification) (rest : List Notification) (row : Notification)
    → any (λ q. same_key q row) rest ≡ false
    → Distinct rest
    → Distinct (absorb (found, rest) row).0
unfolding absorb
absorb-Distinct none rest row h d = append-Distinct row rest h d
absorb-Distinct (some q) rest row h d = elim (Bool-cases (cancels q row)) [
  | inl e ↦ rw e d
  | inr e ↦ rw e (append-Distinct row rest h d)
]

pub collapse-Distinct :
    (newest : List Notification) (dropped : List String) (rows : List Notification)
    → Distinct newest
    → Distinct (collapse newest dropped rows).0
unfolding collapse
collapse-Distinct newest dropped [] d = d
collapse-Distinct newest dropped (row ∷ rows) d =
    let (found, rest) = pop row newest in
    let (newest', more) = absorb (found, rest) row in
    let (fresh, kept) = pop-Distinct row newest d in
    collapse-Distinct newest' (dropped ++ more) rows (absorb-Distinct found rest row fresh kept)
