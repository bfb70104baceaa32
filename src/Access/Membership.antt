-- ===== src/Access/Membership.antt =====
-- vpnpulse/telegram.py, `TelegramMembership`: what the Bot API answers about a user, kept for a while.
pub mod Kept
use vpn_pulse.Prelude.{
  ℕ, ◌+◌, String, Bool, true, false, not, ◌&&◌, ◌||◌, Option, none, some, List, [], ◌∷◌, ltb,
  contains, if◌then◌else◌, ◌==◌, string_eq, nat_eq, option_eq,
}

-- What a call of getChatMember comes to: a JSON object with `ok`, the status and `is_member` of its
-- result; an HTTP error; or any other failure, an answer that is no JSON among them. JSON that is no
-- object, which the Bot API never answers, is left out.
pub data Answer : Type 0 where
  payload : Bool → Option String → Bool → Answer
  http_error : ℕ → Answer
  failed : Answer

-- MEMBER_STATUSES
abbrev pub member_status : Option String → Bool
member_status status =
    status == some "creator" || status == some "administrator" || status == some "member"

-- `_ask`: nothing where it raises.
unfoldable pub ask : Answer → Option (Option String)
ask (payload ok status is_member) = some (
    if not ok
    then none
    else if member_status status
    then some "member"
    else if status == some "restricted" && is_member
    then some "member"
    else none)
ask (http_error code) = if code == 400 || code == 403 then some none else none
ask failed = none

-- The time and the role of the last answer for a user.
pub record Entry : Type 0 where
  pub at : ℕ
  pub role : Option String

-- `_cache`
abbrev pub Cache : Type 0
Cache = List (ℕ × Entry)

unfoldable pub cached_for : ℕ → Cache → Option Entry
cached_for user [] = none
cached_for user ((u, entry) ∷ cache) = if u == user then some entry else cached_for user cache

unfoldable pub put_entry : ℕ → Entry → Cache → Cache
put_entry user entry [] = (user, entry) ∷ []
put_entry user entry ((u, old) ∷ cache) =
    let rest = put_entry user entry cache in
    if u == user then (user, entry) ∷ cache else (u, old) ∷ rest

-- `cached and now - cached[0] < self.ttl`
unfoldable pub is_fresh : ℕ → ℕ → Option Entry → Bool
is_fresh ttl now none = false
is_fresh ttl now (some e) = ltb now (e.at + ttl)

abbrev pub role_or_none : Option Entry → Option String
role_or_none none = none
role_or_none (some e) = e.role

-- The end of `role_for`, after the call.
unfoldable pub remember :
    ℕ → ℕ → Option Entry → Option (Option String) → Cache → Option String × Cache
remember now user cached none cache = (role_or_none cached, cache)
remember now user cached (some role) cache =
    (role, put_entry user (record { at = now; role = role }) cache)

-- `role_for`, where `answer` is what the call would come to.
unfoldable pub role_for : List ℕ → ℕ → ℕ → Answer → ℕ → Cache → Option String × Cache
role_for admins ttl now answer user cache =
    let cached = cached_for user cache in
    if contains admins user
    then (some "admin", cache)
    else if is_fresh ttl now cached
    then (role_or_none cached, cache)
    else remember now user cached (ask answer) cache
