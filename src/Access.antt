-- ===== src/Access.antt =====
-- vpnpulse/auth.py: the sign-in with the data that Telegram hands to the Mini App.
pub mod Genuine
pub mod Membership
use Prim.Native.Char.{code}
use vpn_pulse.Prelude.{
  ℕ, ◌+◌, String, ◌<>◌, Bool, true, false, not, ◌&&◌, ◌||◌, Option, none, some, List, [], ◌∷◌, ltb,
  if◌then◌else◌, ◌==◌, string_eq,
}
use vpn_pulse.Prelude.Lists.{select}
use vpn_pulse.Prelude.Sorting.{sort}
use vpn_pulse.Prelude.Texts.{text_leb}
use vpn_pulse.Clock.{seconds}
use vpn_pulse.Store.Sessions.{Identity}

-- What the function takes from Python and from the caller: `parse_qsl` (nothing where it raises),
-- the HMAC under the bot token as hexadecimal digits, `int` of a text, as seconds from 1970, the id
-- of the user in a JSON text, and the membership. A time before 1970 is the time 0.
pub record Telegram : Type 0 where
  pub parse_qsl : String → Option (List (String × String))
  pub sign : String → String
  pub time_of : String → Option ℕ
  pub user_id : String → Option ℕ
  pub role_for : ℕ → Option String

pub data AuthError : Type 0 where
  malformed hash_missing invalid expired membership_required : AuthError

pub data SignIn : Type 0 where
  refused : AuthError → SignIn
  signed_in : Identity → SignIn
  -- the TypeError of `compare_digest`
  crashed : SignIn

unfoldable pub is_ascii : String → Bool
is_ascii String.[] = true
is_ascii (String.◌∷◌ c t) = let rest = is_ascii t in ltb (code c) 128 && rest

-- `dict(pairs)`: the last value of a key counts.
unfoldable pub set_value : String → String → List (String × String) → List (String × String)
set_value key v [] = (key, v) ∷ []
set_value key v ((k, old) ∷ values) =
    let rest = set_value key v values in if k == key then (k, v) ∷ values else (k, old) ∷ rest

unfoldable pub dict_of : List (String × String) → List (String × String) → List (String × String)
unfolding set_value
dict_of values [] = values
dict_of values ((k, v) ∷ pairs) = dict_of (set_value k v values) pairs

unfoldable pub value_of : String → List (String × String) → Option String
value_of key [] = none
value_of key ((k, v) ∷ values) = if k == key then some v else value_of key values

-- `values.pop("hash", None)`
unfoldable pub without : String → List (String × String) → List (String × String)
unfolding select
without key values = select (λ (k, _). not (k == key)) values

unfoldable pub join_lines : List (String × String) → String
join_lines [] = ""
join_lines ((k, v) ∷ []) = k <> "=" <> v
join_lines ((k, v) ∷ p ∷ rest) = k <> "=" <> v <> "\n" <> join_lines (p ∷ rest)

unfoldable pub data_check_string : List (String × String) → String
unfolding sort join_lines
data_check_string values = join_lines (sort (λ (a, _) (b, _). text_leb a b) values)

unfoldable pub field_of : (String → Option ℕ) → Option String → Option ℕ
field_of read none = none
field_of read (some t) = read t

module _ (T : Telegram) (max_age now : ℕ) where
  unfoldable pub admit : ℕ → Option String → SignIn
  admit user none = refused membership_required
  admit user (some role) =
      if role == "member" || role == "admin"
      then signed_in (record { telegram_user_id = user; role = role })
      else refused membership_required

  unfoldable pub check_age : Option ℕ → Option ℕ → SignIn
  unfolding admit
  check_age none user = refused malformed
  check_age (some at) none = refused malformed
  check_age (some at) (some user) =
      if ltb (now + seconds 30) (seconds at) || ltb (seconds at + max_age) now
      then refused expired
      else admit user (T.role_for user)

  unfoldable pub check_hash : Option String → List (String × String) → SignIn
  unfolding check_age field_of value_of data_check_string is_ascii
  check_hash none values = refused hash_missing
  check_hash (some received) values =
      if received == ""
      then refused hash_missing
      else if not (is_ascii received)
      then crashed
      else if received == T.sign (data_check_string values)
      then check_age (field_of T.time_of (value_of "auth_date" values))
          (field_of T.user_id (value_of "user" values))
      else refused invalid

  unfoldable pub check_values : Option (List (String × String)) → SignIn
  unfolding check_hash dict_of without
  check_values none = refused malformed
  check_values (some pairs) =
      let values = dict_of [] pairs in check_hash (value_of "hash" values) (without "hash" values)

  unfoldable pub validate_telegram_init_data : String → SignIn
  unfolding check_values
  validate_telegram_init_data init_data = check_values (T.parse_qsl init_data)
