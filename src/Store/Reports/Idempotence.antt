-- ===== src/Store/Reports/Idempotence.antt =====
-- A report is stored once, under its name.
use vpn_pulse.Prelude.{
  ℕ, Bool, true, false, ◌≡◌, ◌≢◌, none, some, List, [], ◌∷◌, ◌++◌, ==-refl, string_eq, arith, inl,
  inr, Option-cases,
}
use vpn_pulse.Prelude.Lists.{find}
use vpn_pulse.Store.Tables.{Settings, ProbeReport, Database}
use vpn_pulse.Store.Probes.{ProbeSummary}
use vpn_pulse.Store.Reports.{
  Payload, Hashing, stored, conflict, report_row, store_report, repeated, has_report_id,
  accept_report,
}

find-append_absent :
    (p : ProbeReport → Bool) (xs : List ProbeReport) (x : ProbeReport)
    → find p xs ≡ none
    → p x ≡ true
    → find p (xs ++ x ∷ []) ≡ some x
unfolding find
find-append_absent p [] x h k = rw k
find-append_absent p (y ∷ ys) x h k = ground (arith, find-append_absent p ys x)

module _ (s : Settings) (h : Hashing) (probe : ProbeSummary) (payload : Payload) (now : ℕ) where
  -- The same report again, at any later instant, is acknowledged as a duplicate with nothing
  -- written, and the database stays as the first attempt left it.
  pub accept_report_again :
      (db db' : Database) (n later : ℕ)
      → accept_report s h probe payload now db ≡ (db', stored false n)
      → accept_report s h probe payload later db' ≡ (db', stored true 0)
  unfolding accept_report store_report repeated
  accept_report_again db db' n later e =
      let mine = has_report_id s h probe payload now in
      elim (Option-cases (find mine db.reports)) [
        | inl absent ↦ ground (
          arith,
          absent,
          e,
          find-append_absent mine db.reports (report_row s h probe payload now) absent
              (==-refl payload.report_id),
        )
        | inr (existing, found) ↦ ground (arith, found, e)
      ]

  -- A report whose name is taken by a report with another payload is refused, and nothing changes.
  pub accept_report_conflict :
      (db : Database) (existing : ProbeReport)
      → find (has_report_id s h probe payload now) db.reports ≡ some existing
      → existing.payload_hash ≢ h.digest payload
      → accept_report s h probe payload now db ≡ (db, conflict)
  unfolding accept_report store_report repeated
  accept_report_conflict db existing e differ = ground (arith, e)
