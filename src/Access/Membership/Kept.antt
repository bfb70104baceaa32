-- ===== src/Access/Membership/Kept.antt =====
-- How long an answer about a user counts.
use vpn_pulse.Prelude.{
  ℕ, ◌+◌, ◌<◌, String, Bool, true, false, ◌≡◌, ◌≢◌, refl, ap, ◌∙◌, Option, some, List, [], ◌∷◌,
  contains, if◌then◌else◌, ◌==◌, nat_eq, arith, Option-cases, inl, inr,
}
use vpn_pulse.Access.Membership.{
  Answer, failed, ask, Entry, Cache, cached_for, put_entry, is_fresh, role_or_none, remember,
  role_for,
}

cached_for-put_entry :
    (user other : ℕ) (entry : Entry) (cache : Cache)
    → cached_for other (put_entry user entry cache)
      ≡ (if user == other then some entry else cached_for other cache)
unfolding cached_for put_entry
cached_for-put_entry user other entry [] = refl
cached_for-put_entry user other entry ((u, old) ∷ cache) =
    ground (arith, cached_for-put_entry user other entry cache)

-- A call for one user as it happens: when, for whom, and what Telegram would answer.
abbrev pub Call : Type 0
Call = ℕ × ℕ × Answer

module _ (admins : List ℕ) (ttl : ℕ) where
  abbrev pub after_calls : List Call → Cache → Cache
  after_calls [] cache = cache
  after_calls ((now, user, answer) ∷ calls) cache =
      after_calls calls (role_for admins ttl now answer user cache).1

  abbrev pub about_others : ℕ → List Call → Bool
  about_others user [] = true
  about_others user ((now, u, answer) ∷ calls) =
      if u == user then false else about_others user calls

  cached_for-role_for_other :
      (now user other : ℕ) (answer : Answer) (cache : Cache)
      → user ≢ other
      → cached_for other (role_for admins ttl now answer user cache).1 ≡ cached_for other cache
  unfolding role_for remember
  cached_for-role_for_other now user other answer cache h = elim (Option-cases (ask answer)) [
    | inl e ↦ rw e (ground arith)
    | inr (role, e) ↦ rw e (
        ground (arith, h, cached_for-put_entry user other (record { at = now; role = role }) cache))
  ]

  cached_for-after_calls :
      (user : ℕ) (calls : List Call) (cache : Cache)
      → about_others user calls ≡ true
      → cached_for user (after_calls calls cache) ≡ cached_for user cache
  cached_for-after_calls user [] cache h = refl
  cached_for-after_calls user ((now, u, answer) ∷ calls) cache h =
      cached_for-after_calls user calls (role_for admins ttl now answer u cache).1 (ground arith)
      ∙ cached_for-role_for_other now u user answer cache (λ e. ground (arith, e))

  role_for-fresh :
      (now user : ℕ) (answer : Answer) (entry : Entry) (cache : Cache)
      → contains admins user ≡ false
      → cached_for user cache ≡ some entry
      → now < entry.at + ttl
      → role_for admins ttl now answer user cache ≡ (entry.role, cache)
  unfolding role_for is_fresh
  role_for-fresh now user answer entry cache member kept soon =
      rw kept (ground (arith, member, soon))

  -- When Telegram answers about a user who is no administrator, and no answer about that user is
  -- fresh, then the role of this answer counts until the time to live is over: whatever is asked
  -- about others in the meantime, and whatever Telegram would answer by then, the user has this
  -- role and nothing is asked.
  pub role_for_again :
      (now later user : ℕ) (first second : Answer) (role : Option String) (calls : List Call)
      (cache : Cache)
      → contains admins user ≡ false
      → is_fresh ttl now (cached_for user cache) ≡ false
      → ask first ≡ some role
      → about_others user calls ≡ true
      → later < now + ttl
      → let cache' = after_calls calls (role_for admins ttl now first user cache).1 in
        role_for admins ttl later second user cache' ≡ (role, cache')
  unfolding role_for remember is_fresh
  role_for_again now later user first second role calls cache member old answered others soon =
      let entry : Entry = record { at = now; role = role } in
      let asked : role_for admins ttl now first user cache ≡ (role, put_entry user entry cache) =
        ground (arith, member, old, answered) in
      let kept : cached_for user (after_calls calls (role_for admins ttl now first user cache).1)
          ≡ some entry =
        cached_for-after_calls user calls _ others
        ∙ ap (λ (r : Option String × Cache). cached_for user r.1) asked
        ∙ ground (arith, cached_for-put_entry user user entry cache) in
      role_for-fresh later user second entry _ member kept soon

  -- While Telegram cannot be asked, a user who is no administrator keeps the role of the last answer,
  -- however old, or has none, and nothing is forgotten.
  pub role_for-failed :
      (now user : ℕ) (cache : Cache)
      → contains admins user ≡ false
      → role_for admins ttl now failed user cache ≡ (role_or_none (cached_for user cache), cache)
  unfolding role_for ask remember
  role_for-failed now user cache h = ground (arith, h)
