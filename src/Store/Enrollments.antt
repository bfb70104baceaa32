-- ===== src/Store/Enrollments.antt =====
-- SqliteStore, "enrollment codes": `secrets.token_urlsafe` gives the code.
pub mod Once
pub mod Race
use vpn_pulse.Prelude.{
  ℕ, ◌+◌, ◌*◌, String, ◌<>◌, Option, none, some, List, [], ◌∷◌, ◌++◌, leb, is_some, if◌then◌else◌,
  ◌==◌, Bool, string_eq, ◌≡◌, ◌≢◌, refl, arith, false, inl, inr, Option-cases, ==-refl,
}
use vpn_pulse.Prelude.Lists.{find, find_sound, any}
use vpn_pulse.Prelude.Tables.{update_where, find-update_where, find-append_new}
use vpn_pulse.Clock.{seconds}
use vpn_pulse.Store.Tables.{Settings, ProbeEnrollment, Database}
use mathlib.Core.Option

-- The dict that `consume_enrollment` returns.
pub record Enrollment : Type 0 where
  pub kind : String
  pub capabilities : List String
  pub via_server_id : Option String

abbrev pub has_code : String → ProbeEnrollment → Bool
has_code h row = row.code_hash == h

-- A row that is there, was not used, and has not expired.
unfoldable pub usable : ℕ → Option ProbeEnrollment → Option Enrollment
usable now none = none
usable now (some row) =
    if is_some row.used_at
    then none
    else if leb row.expires_at now
    then none
    else some (record {
      kind = row.kind;
      capabilities = row.capabilities;
      via_server_id = row.via_server_id;
    })

module _ (s : Settings) where
  abbrev pub new_enrollment :
      String → List String → String → Option String → String → ℕ → ProbeEnrollment
  new_enrollment kind capabilities created_by via code now = record {
    code_hash = s.sha code;
    kind = kind;
    capabilities = capabilities;
    expires_at = now + seconds (60 * s.enrollment_minutes);
    used_at = none;
    created_by_hash = s.sha (s.pepper <> ":" <> created_by);
    created_at = now;
    via_server_id = via;
  }

  unfoldable pub create_enrollment :
      Database → String → List String → String → Option String → String → ℕ → Database × String × ℕ
  create_enrollment db kind capabilities created_by via code now =
      let row = new_enrollment kind capabilities created_by via code now in
      (record db { enrollments = db.enrollments ++ row ∷ [] }, code, row.expires_at)

  abbrev pub mark_used : Database → String → ℕ → Database
  mark_used db code now = record db {
    enrollments =
        update_where (has_code (s.sha code)) (λ row. record row { used_at = some now })
          db.enrollments;
  }

  unfoldable pub consumed : Database → String → ℕ → Option Enrollment → Database × Option Enrollment
  consumed db code now none = (db, none)
  consumed db code now (some e) = (mark_used db code now, some e)

  unfoldable pub consume_enrollment : Database → String → ℕ → Database × Option Enrollment
  unfolding consumed
  consume_enrollment db code now =
      consumed db code now (usable now (find (has_code (s.sha code)) db.enrollments))
