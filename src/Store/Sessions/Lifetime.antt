-- ===== src/Store/Sessions/Lifetime.antt =====
-- The life of a session: from `create_session` until it expires or is revoked.
use mathlib.Core.Option
use vpn_pulse.Prelude.{
  ℕ, ◌+◌, ◌*◌, String, false, ◌≡◌, ◌≢◌, refl, none, some, List, leb, is_some, if◌then◌else◌,
  ==-refl, ◌&&◌, not, string_eq, arith, Option-cases, inl, inr,
}
use vpn_pulse.Prelude.Lists.{any, find, find_sound}
use vpn_pulse.Prelude.Tables.{update_where, find-update_where, find-append_new}
use vpn_pulse.Clock.{seconds}
use vpn_pulse.Store.Tables.{Settings, WebSession, Database}
use vpn_pulse.Store.Sessions.{
  Identity, create_session, new_session, session_of_row, has_hash, get_session, revoke_session,
}

module _ (s : Settings) where
  -- A fresh token, whose hash no row has, gives its session with its role until the instant at
  -- which it expires, and nothing from then on.
  pub get_session-create_session :
      (db : Database) (identity : Identity) (token : String) (now later : ℕ)
      → token ≢ ""
      → any (has_hash (s.sha token)) db.sessions ≡ false
      → let (db', session) = create_session s db identity token now in
        get_session s db' (some token) later ≡ (
          if leb (now + seconds (60 * s.session_minutes)) later
          then none
          else some
              (record session { identity = record { telegram_user_id = 0; role = identity.role } }))
  unfolding get_session create_session
  get_session-create_session db identity token now later nonempty fresh = ground (
    arith,
    find-append_new (has_hash (s.sha token)) db.sessions (new_session s identity token now) fresh
        (==-refl (s.sha token)),
  )

  abbrev revoke_row : String → ℕ → WebSession → WebSession
  revoke_row h now row =
      if has_hash h row && not (is_some row.revoked_at)
      then record row { revoked_at = some now }
      else row

  find-revoke :
      (h k : String) (now : ℕ) (rows : List WebSession)
      → find (has_hash k) (
          update_where
            (λ row. has_hash h row && not (is_some row.revoked_at))
            (λ row. record row { revoked_at = some now })
            rows)
        ≡ Option.map (revoke_row h now) (find (has_hash k) rows)
  find-revoke h k now rows =
      find-update_where (has_hash k) (λ row. has_hash h row && not (is_some row.revoked_at))
        (λ row. record row { revoked_at = some now }) rows (λ row. refl)

  found_hash :
      (h : String) (rows : List WebSession) {row : WebSession}
      → find (has_hash h) rows ≡ some row
      → row.id_hash ≡ h
  found_hash h rows e = ground (arith, find_sound (has_hash h) rows e)

  -- Once a token is revoked it gives no session at any instant.
  pub get_session-revoke_session :
      (db : Database) (token : String) (now later : ℕ)
      → get_session s (revoke_session s db (some token) now) (some token) later ≡ none
  unfolding get_session revoke_session session_of_row
  get_session-revoke_session db token now later =
      let h = s.sha token in
      elim (Option-cases (find (has_hash h) db.sessions)) [
        | inl e ↦ ground (arith, find-revoke h h now db.sessions, e)
        | inr (row, e) ↦
            ground (arith, find-revoke h h now db.sessions, e, found_hash h db.sessions e)
      ]

  -- A revocation touches no session of another token.
  pub get_session-revoke_session_other :
      (db : Database) (token other : String) (now later : ℕ)
      → s.sha other ≢ s.sha token
      → get_session s (revoke_session s db (some token) now) (some other) later
        ≡ get_session s db (some other) later
  unfolding get_session revoke_session session_of_row
  get_session-revoke_session_other db token other now later differ =
      let h = s.sha token in
      let k = s.sha other in
      elim (Option-cases (find (has_hash k) db.sessions)) [
        | inl e ↦ ground (arith, find-revoke h k now db.sessions, e)
        | inr (row, e) ↦
            ground (arith, find-revoke h k now db.sessions, e, found_hash k db.sessions e)
      ]
