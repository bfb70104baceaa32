-- ===== src/Domain/Choice.antt =====
-- Which server `recommend_server` takes.
use mathlib.Core.Option.{some-injective}
use vpn_pulse.Prelude.{
  String, Bool, true, false, ◌≡◌, ◌≢◌, refl, sym, ap, ◌∙◌, ◌↔◌, ◌⊎◌, Option, none, some, List, [],
  ◌∷◌, if◌then◌else◌, ◌==◌, string_eq, option_eq, arith, Bool-cases, inl, inr,
}
use vpn_pulse.Prelude.Lists.{
  select, find, find-any, find_sound, any-select, nonempty-select, any, All, IsIn, nonempty,
}
use vpn_pulse.Prelude.Sorting.{sort, IsOrder, sort-head, sort-first, nonempty-sort, any-sort}
use vpn_pulse.Domain.Ranking.{key_leb-IsOrder}
use vpn_pulse.Domain.Recommender.{
  Loads, ServerCandidate, eligible, key_leb, stays, choose, recommend_server,
}

module _ (L : Loads) where
  open L use {Load, le, times_1_10}

  -- The choice from a sorted list, and what it depends on.
  choose-some :
      (previous : Option (ServerCandidate Load)) (ranked : List (ServerCandidate Load))
      (id : String)
      → choose L previous ranked ≡ some id
      → ((p : ServerCandidate Load) × (previous ≡ some p) × (p.server_id ≡ id))
        ⊎ ((best : ServerCandidate Load) × (rest : List (ServerCandidate Load)) × (ranked
              ≡ best ∷ rest)
            × (best.server_id ≡ id))
  unfolding choose
  choose-some previous [] id h = cc
  choose-some none (best ∷ rest) id h = inr (best, rest, refl, some-injective _ _ h)
  choose-some (some p) (best ∷ rest) id h =
      elim (Bool-cases (stays L p.load_score best.load_score)) [
        | inl e ↦ inl (p, refl, some-injective _ _ (rw e at h))
        | inr e ↦ inr (best, rest, refl, some-injective _ _ (rw e at h))
      ]

  stays-false :
      (p b : Option Load)
      → stays L p b ≡ false
      → (x : Load) × (y : Load) × (p ≡ some x) × (b ≡ some y) × (le x (times_1_10 y) ≡ false)
  unfolding stays
  stays-false none b h = cc
  stays-false (some x) none h = cc
  stays-false (some x) (some y) h = (x, y, refl, refl, h)

  choose-nil_iff :
      (previous : Option (ServerCandidate Load)) (ranked : List (ServerCandidate Load))
      → (choose L previous ranked ≡ none) ↔ (nonempty ranked ≡ false)
  unfolding choose
  choose-nil_iff previous [] = (λ _. refl, λ _. refl)
  choose-nil_iff none (best ∷ rest) = (λ h. cc, λ h. cc)
  choose-nil_iff (some p) (best ∷ rest) = ground arith

  abbrev previous_is : Option String → ServerCandidate Load → Bool
  previous_is id c = some c.server_id == id

  abbrev pub eligible_as : String → ServerCandidate Load → Bool
  eligible_as id c = if eligible L c then c.server_id == id else false

  any-first :
      (q : ServerCandidate Load → Bool) (c : ServerCandidate Load)
      (cs : List (ServerCandidate Load))
      → q c ≡ true
      → any q (c ∷ cs) ≡ true
  unfolding any
  any-first q c cs k = rw k

  no_previous : (c : ServerCandidate Load) → ¬ (previous_is none c ≡ true)
  no_previous c h = ground arith

  id_of_previous :
      (c : ServerCandidate Load) (id : String) → previous_is (some id) c ≡ true → c.server_id ≡ id
  id_of_previous c id h = ground arith

  -- When the previous server is left, both loads are known and the margin is passed.
  choose-leaves :
      (p : ServerCandidate Load) (ranked : List (ServerCandidate Load)) (id : String)
      → choose L (some p) ranked ≡ some id
      → p.server_id ≢ id
      → (best : ServerCandidate Load) × (rest : List (ServerCandidate Load)) × (x : Load)
        × (y : Load) × (ranked ≡ best ∷ rest)
        × (best.server_id ≡ id)
        × (p.load_score ≡ some x)
        × (best.load_score ≡ some y)
        × (le x (times_1_10 y) ≡ false)
  unfolding choose
  choose-leaves p [] id h other = cc
  choose-leaves p (best ∷ rest) id h other =
      elim (Bool-cases (stays L p.load_score best.load_score)) [
        | inl e ↦ absurd (other (some-injective _ _ (rw e at h)))
        | inr e ↦
            let (x, y, px, by, over) = stays-false p.load_score best.load_score e in
            (best, rest, x, y, refl, some-injective _ _ (rw e at h), px, by, over)
      ]

  -- What is recommended is an eligible candidate: operational, with some coverage, and with its
  -- protocols covered in full.
  pub recommend_server-eligible :
      (candidates : List (ServerCandidate Load)) (previous : Option String) (id : String)
      → recommend_server L candidates previous ≡ some id
      → any (eligible_as id) candidates ≡ true
  unfolding recommend_server
  recommend_server-eligible candidates previous id h =
      let items = select (eligible L) candidates in
      let named : ServerCandidate Load → Bool = λ c. c.server_id == id in
      let found : any named items ≡ true =
        elim (choose-some (find (previous_is previous) items) (sort (key_leb L) items) id h) [
          | inl (p, e, same) ↦ find-any (previous_is previous) named items e (ground arith)
          | inr (best, rest, e, same) ↦
              sym (any-sort (key_leb L) named items)
              ∙ ap (any named) e
              ∙ any-first named best rest (ground arith)
        ] in
      sym (any-select named (eligible L) candidates) ∙ found

  -- Nothing is recommended exactly when no candidate is eligible.
  pub recommend_server-none_iff :
      (candidates : List (ServerCandidate Load)) (previous : Option String)
      → (recommend_server L candidates previous ≡ none) ↔ (any (eligible L) candidates ≡ false)
  unfolding recommend_server
  recommend_server-none_iff candidates previous =
      let items = select (eligible L) candidates in
      let ranked = choose-nil_iff (find (previous_is previous) items) (sort (key_leb L) items) in
      let same = nonempty-sort (key_leb L) items ∙ nonempty-select (eligible L) candidates in
      (λ h. sym same ∙ ranked.0 h, λ h. ranked.1 (same ∙ h))

  module _ (o : IsOrder le) where
    -- Without a previous choice, the recommended server is an eligible candidate that comes first
    -- among the eligible ones: by load, unknown loads last, then by priority, then by name.
    pub recommend_server-best :
        (candidates : List (ServerCandidate Load)) (id : String)
        → recommend_server L candidates none ≡ some id
        → (best : ServerCandidate Load) × (best.server_id ≡ id)
          × IsIn best (select (eligible L) candidates)
          × All (λ c. key_leb L best c ≡ true) (select (eligible L) candidates)
    unfolding recommend_server
    recommend_server-best candidates id h =
        let items = select (eligible L) candidates in
        elim (choose-some (find (previous_is none) items) (sort (key_leb L) items) id h) [
          | inl (p, e, same) ↦ absurd (no_previous p (find_sound (previous_is none) items e))
          | inr (best, rest, e, same) ↦ (
            best,
            same,
            sort-first (key_leb L) items rest best e,
            sort-head (key_leb-IsOrder L o) items rest best e,
          )
        ]

    -- The previous server is left for another one only if both loads are known, the other comes
    -- first among the eligible ones, and the previous load is above its load by more than the
    -- margin of a tenth.
    pub recommend_server-previous :
        (candidates : List (ServerCandidate Load)) (p : ServerCandidate Load) (previous id : String)
        → find (λ c. some c.server_id == some previous) (select (eligible L) candidates) ≡ some p
        → recommend_server L candidates (some previous) ≡ some id
        → id ≢ previous
        → (best : ServerCandidate Load) × (x : Load) × (y : Load) × (best.server_id ≡ id)
          × (p.load_score ≡ some x)
          × (best.load_score ≡ some y)
          × (le x (times_1_10 y) ≡ false)
          × All (λ c. key_leb L best c ≡ true) (select (eligible L) candidates)
    unfolding recommend_server
    recommend_server-previous candidates p previous id f h other =
        let items = select (eligible L) candidates in
        let found = find_sound (previous_is (some previous)) items f in
        let (best, rest, x, y, e, same, px, by, over) =
          choose-leaves p (sort (key_leb L) items) id (rw f at h)
            (λ k. other (sym k ∙ id_of_previous p previous found)) in
        (best, x, y, same, px, by, over, sort-head (key_leb-IsOrder L o) items rest best e)
