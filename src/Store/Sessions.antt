-- ===== src/Store/Sessions.antt =====
-- SqliteStore, "sessions". `secrets.token_urlsafe` gives the token; `now` is read by the caller.
pub mod Lifetime
use vpn_pulse.Prelude.{
  ℕ, ◌+◌, ◌*◌, String, ◌<>◌, Bool, true, false, not, ◌&&◌, Option, none, some, List, [], ◌∷◌, ◌++◌,
  leb, is_some, if◌then◌else◌, ◌==◌, string_eq,
}
use vpn_pulse.Prelude.Lists.{find}
use vpn_pulse.Prelude.Tables.{update_where}
use vpn_pulse.Clock.{seconds}
use vpn_pulse.Store.Tables.{Settings, WebSession, Database}

-- vpnpulse/auth.py, `Identity` and `Session`.
pub record Identity : Type 0 where
  pub telegram_user_id : ℕ
  pub role : String

pub record Session : Type 0 where
  pub token : String
  pub identity : Identity
  pub expires_at : ℕ

-- The tests on the row that was found.
unfoldable pub session_of_row : String → ℕ → Option WebSession → Option Session
session_of_row token now none = none
session_of_row token now (some row) =
    if is_some row.revoked_at
    then none
    else if leb row.expires_at now
    then none
    else some (record {
      token = token;
      identity = record { telegram_user_id = 0; role = row.role };
      expires_at = row.expires_at;
    })

abbrev pub has_hash : String → WebSession → Bool
has_hash h row = row.id_hash == h

module _ (s : Settings) where
  abbrev pub new_session : Identity → String → ℕ → WebSession
  new_session identity token now = record {
    id_hash = s.sha token;
    role = identity.role;
    telegram_user_hash = s.sha (s.pepper <> ":" <> s.decimal identity.telegram_user_id);
    created_at = now;
    expires_at = now + seconds (60 * s.session_minutes);
    last_membership_check_at = now;
    revoked_at = none;
  }

  unfoldable pub create_session : Database → Identity → String → ℕ → Database × Session
  create_session db identity token now = (
    record db { sessions = db.sessions ++ new_session identity token now ∷ [] },
    record {
      token = token;
      identity = identity;
      expires_at = now + seconds (60 * s.session_minutes);
    },
  )

  -- `not token` holds of None and of the empty text.
  unfoldable pub get_session : Database → Option String → ℕ → Option Session
  unfolding session_of_row
  get_session db none now = none
  get_session db (some token) now =
      if token == ""
      then none
      else session_of_row token now (find (has_hash (s.sha token)) db.sessions)

  unfoldable pub revoke_session : Database → Option String → ℕ → Database
  revoke_session db none now = db
  revoke_session db (some token) now = if token == "" then db else record db {
    sessions =
        update_where (λ row. has_hash (s.sha token) row && not (is_some row.revoked_at))
          (λ row. record row { revoked_at = some now }) db.sessions;
  }
