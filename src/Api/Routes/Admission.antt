-- ===== src/Api/Routes/Admission.antt =====
-- Who is let in: vpnpulse/api/app.py, the guards of the routes.
use vpn_pulse.Prelude.{ℕ, String, Bool, true, false, ◌≡◌, refl, ◌==◌, string_eq, Option, none, some}
use vpn_pulse.Store.Tables.{Database}
use vpn_pulse.Store.Sessions.{Session, get_session}
use vpn_pulse.Api.Guards.{require_session, require_role}
use vpn_pulse.Api.Routes.{
  Response, problem_details, Drawn, Route, overview_at, probes_at, admin_server_at, enrollment_at,
  revoke_at, put_note_at, delete_note_at, App, guarded,
}
use vpn_pulse.Api.Routes.Serve.{serve}

-- The paths under /api/v1/admin.
unfoldable pub under_admin : Route → Bool
under_admin (admin_server_at _) = true
under_admin probes_at = true
under_admin overview_at = true
under_admin (enrollment_at _ _) = true
under_admin (revoke_at _) = true
under_admin (put_note_at _ _ _ _) = true
under_admin delete_note_at = true
under_admin _ = false

-- Whether a session is one of the administrator, and the problem that answers any other.
unfoldable pub is_admin : Option Session → Bool
is_admin none = false
is_admin (some s) = s.identity.role == "admin"

unfoldable pub refusal : {View : Type 0} → Option Session → Response View
refusal none = problem_details 401 "SESSION_EXPIRED"
refusal (some s) = problem_details 403 "ROLE_REQUIRED"

module _ {View : Type 0} (app : App View) (drawn : Drawn) (now : ℕ) where
  refuse :
      (db : Database) (session : Option Session) (route : Session → Database × Response View)
      → is_admin session ≡ false
      → guarded db (require_role (some "admin") session) route ≡ (db, refusal session)
  unfolding guarded is_admin refusal require_role
  refuse db none route h = refl
  refuse db (some s) route h = rw h

  module _ (token authorization : Option String) (lang : String) (db : Database) where
    -- A request to a path under /api/v1/admin without a session of the administrator changes
    -- nothing, whatever else it holds: without a session in force it is answered 401, with a session
    -- of another role 403.
    pub serve-under_admin :
        (r : Route)
        → under_admin r ≡ true
        → is_admin (get_session app.settings db token now) ≡ false
        → serve app drawn now token authorization lang db r
          ≡ (db, refusal (get_session app.settings db token now))
    unfolding serve under_admin require_session
    serve-under_admin (admin_server_at _) h k =
        refuse db (get_session app.settings db token now) _ k
    serve-under_admin probes_at h k = refuse db (get_session app.settings db token now) _ k
    serve-under_admin overview_at h k = refuse db (get_session app.settings db token now) _ k
    serve-under_admin (enrollment_at _ _) h k =
        refuse db (get_session app.settings db token now) _ k
    serve-under_admin (revoke_at _) h k = refuse db (get_session app.settings db token now) _ k
    serve-under_admin (put_note_at _ _ _ _) h k =
        refuse db (get_session app.settings db token now) _ k
    serve-under_admin delete_note_at h k = refuse db (get_session app.settings db token now) _ k
    serve-under_admin _ h k = cc
