-- ===== src/Store/Enrollments/Once.antt =====
-- An enrollment code lives for a while and is used once.
use vpn_pulse.Prelude.{
  ℕ, ◌+◌, ◌*◌, String, Option, none, some, List, leb, if◌then◌else◌, string_eq, ◌≡◌, refl, arith,
  false, inl, inr, Option-cases, ==-refl,
}
use vpn_pulse.Prelude.Lists.{find, find_sound, any}
use vpn_pulse.Prelude.Tables.{find-update_where, find-append_new}
use vpn_pulse.Clock.{seconds}
use vpn_pulse.Store.Tables.{Settings, ProbeEnrollment, Database}
use vpn_pulse.Store.Enrollments.{
  Enrollment, has_code, usable, new_enrollment, create_enrollment, consumed, consume_enrollment,
}

module _ (s : Settings) where
  -- A fresh code, whose hash no row has, enrols the probe it was made for until the instant at
  -- which it expires, and nobody from then on.
  pub consume_enrollment-create_enrollment :
      (db : Database) (kind created_by code : String) (capabilities : List String)
      (via : Option String) (now later : ℕ)
      → any (has_code (s.sha code)) db.enrollments ≡ false
      → (consume_enrollment s
          (create_enrollment s db kind capabilities created_by via code now).0
          code
          later).1
        ≡ (if leb (now + seconds (60 * s.enrollment_minutes)) later
            then none
            else some (record { kind = kind; capabilities = capabilities; via_server_id = via }))
  unfolding consume_enrollment create_enrollment usable
  consume_enrollment-create_enrollment db kind created_by code capabilities via now later fresh =
      let row = new_enrollment s kind capabilities created_by via code now in
      ground (
        arith,
        find-append_new (has_code (s.sha code)) db.enrollments row fresh (==-refl (s.sha code)),
      )

  -- A code is used once: whatever became of the first attempt with it, after a successful one no
  -- attempt succeeds at any instant.
  pub consume_enrollment_once :
      (db : Database) (code : String) (now later : ℕ) (e : Enrollment)
      → (consume_enrollment s db code now).1 ≡ some e
      → (consume_enrollment s (consume_enrollment s db code now).0 code later).1 ≡ none
  unfolding consume_enrollment consumed usable
  consume_enrollment_once db code now later e h =
      let code_hash = s.sha code in
      let mark : ProbeEnrollment → ProbeEnrollment = λ row. record row { used_at = some now } in
      elim (Option-cases (find (has_code code_hash) db.enrollments)) [
        | inl none_found ↦ ground (arith, none_found)
        | inr (row, found) ↦ ground (
          arith,
          found,
          find_sound (has_code code_hash) db.enrollments found,
          find-update_where (has_code code_hash) (has_code code_hash) mark db.enrollments
              (λ r. refl),
        )
      ]
