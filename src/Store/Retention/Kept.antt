-- ===== src/Store/Retention/Kept.antt =====
-- What a sweep keeps.
use vpn_pulse.Prelude.{
  ℕ, ◌+◌, ◌-◌, ◌≤◌, String, Bool, true, ◌≡◌, refl, some, List, [], ◌∷◌, leb, ◌==◌, string_eq,
  option_eq, arith, Bool-cases, Option-cases, inl, inr,
}
use vpn_pulse.Prelude.Lists.{length, select, any, find}
use vpn_pulse.Prelude.Tables.{delete_where, length-delete_where, Unique, find-delete_where}
use vpn_pulse.Clock.{second, days, text_le-bound, text_lt-bound, text_lt_of_second}
use vpn_pulse.Store.Tables.{Settings, WebSession, ObservationRow, ProbeReport, Database}
use vpn_pulse.Store.Sessions.{get_session, session_of_row, has_hash}
use vpn_pulse.Store.Retention.{dead_session, old_observation, is_referenced, old_report, sweep}

module _ (horizon : ℕ) where
  abbrev pub is_young : ObservationRow → Bool
  is_young o = leb (horizon + second) o.observed_at

  abbrev pub is_ancient : ObservationRow → Bool
  is_ancient o = leb (o.observed_at + second) horizon

  select-young :
      (rows : List ObservationRow)
      → select is_young (delete_where (old_observation horizon) rows) ≡ select is_young rows
  unfolding select delete_where
  select-young [] = refl
  select-young (o ∷ os) = ground (arith, select-young os, text_lt-bound o.observed_at horizon)

  select-ancient :
      (rows : List ObservationRow)
      → select is_ancient (delete_where (old_observation horizon) rows) ≡ []
  unfolding select delete_where
  select-ancient [] = refl
  select-ancient (o ∷ os) =
      ground (arith, select-ancient os, text_lt_of_second o.observed_at horizon)

-- A report that an observation names is in the table.
abbrev pub Linked : List ProbeReport → List ObservationRow → Type 0
Linked reports [] = Unit
Linked reports (o ∷ os) =
    ((id : String)
      → o.probe_report_id ≡ some id
      → any (λ (r : ProbeReport). r.report_id == id) reports ≡ true)
    × Linked reports os

any-delete_reports :
    (horizon : ℕ) (os : List ObservationRow) (id : String) (reports : List ProbeReport)
    → is_referenced os id ≡ true
    → any (λ (r : ProbeReport). r.report_id == id) reports ≡ true
    → any (λ (r : ProbeReport). r.report_id == id) (delete_where (old_report horizon os) reports)
      ≡ true
unfolding any delete_where
any-delete_reports horizon os id [] ref h = h
any-delete_reports horizon os id (r ∷ rs) ref h =
    ground (arith, any-delete_reports horizon os id rs ref)

-- Each report that these observations name is among those that `kept` names.
abbrev References : List ObservationRow → List ObservationRow → Type 0
References kept [] = Unit
References kept (o ∷ os) =
    ((id : String) → o.probe_report_id ≡ some id → is_referenced kept id ≡ true)
    × References kept os

References-cons :
    (x : ObservationRow) (kept os : List ObservationRow)
    → References kept os
    → References (x ∷ kept) os
unfolding is_referenced any
References-cons x kept [] h = tt
References-cons x kept (o ∷ os) h =
    (λ id e. ground (arith, h.0 id e), References-cons x kept os h.1)

References-self : (os : List ObservationRow) → References os os
unfolding is_referenced any
References-self [] = tt
References-self (o ∷ os) = (λ id e. ground arith, References-cons o os os (References-self os))

Linked-delete_where :
    (horizon : ℕ) (reports : List ProbeReport) (os : List ObservationRow)
    → Linked reports os
    → Linked reports (delete_where (old_observation horizon) os)
unfolding delete_where select
Linked-delete_where horizon reports [] h = tt
Linked-delete_where horizon reports (o ∷ os) h = elim (Bool-cases (old_observation horizon o)) [
  | inl e ↦ rw e (Linked-delete_where horizon reports os h.1)
  | inr e ↦ rw e (h.0, Linked-delete_where horizon reports os h.1)
]

Linked-delete_reports :
    (horizon : ℕ) (kept : List ObservationRow) (reports : List ProbeReport)
    (os : List ObservationRow)
    → References kept os
    → Linked reports os
    → Linked (delete_where (old_report horizon kept) reports) os
Linked-delete_reports horizon kept reports [] r h = tt
Linked-delete_reports horizon kept reports (o ∷ os) r h = (
  λ id e. any-delete_reports horizon kept id reports (r.0 id e) (h.0 id e),
  Linked-delete_reports horizon kept reports os r.1 h.1,
)

module _ (s : Settings) (db : Database) (now : ℕ) where
  abbrev pub horizon_of : ℕ
  horizon_of = now - days s.observations_days

  -- With the age of observations that the configuration keeps, a sweep deletes no observation that
  -- is younger by a second, and leaves none that is older by a second.
  pub sweep-observations :
      (select (is_young horizon_of) (sweep s db now).0.observations
        ≡ select (is_young horizon_of) db.observations)
      × (select (is_ancient horizon_of) (sweep s db now).0.observations ≡ [])
  unfolding sweep
  sweep-observations =
      (select-young horizon_of db.observations, select-ancient horizon_of db.observations)

  -- The counts that a sweep returns are the numbers of rows that each table lost.
  pub sweep-counts :
      let (after, n) = sweep s db now in
      (length after.sessions + n.sessions ≡ length db.sessions)
      × (length after.enrollments + n.enrollments ≡ length db.enrollments)
      × (length after.observations + n.observations ≡ length db.observations)
      × (length after.reports + n.reports ≡ length db.reports)
      × (length after.events + n.events ≡ length db.events)
      × (length after.audit + n.audit ≡ length db.audit)
  unfolding sweep
  sweep-counts = (
    length-delete_where _ db.sessions,
    length-delete_where _ db.enrollments,
    length-delete_where _ db.observations,
    length-delete_where _ db.reports,
    length-delete_where _ db.events,
    length-delete_where _ db.audit,
  )

  -- Where the session hashes are a primary key, a sweep ends no session: from a second after the
  -- sweep, a token gives what it would have given without it.
  pub get_session-sweep :
      (token : String) (later : ℕ)
      → Unique (λ (r : WebSession). r.id_hash) db.sessions
      → now + second ≤ later
      → get_session s (sweep s db now).0 (some token) later ≡ get_session s db (some token) later
  unfolding get_session sweep session_of_row
  get_session-sweep token later unique h =
      let k = s.sha token in
      let kept =
        find-delete_where (λ (r : WebSession). r.id_hash) (dead_session now) k db.sessions unique in
      elim (Option-cases (find (has_hash k) db.sessions)) [
        | inl e ↦ ground (arith, kept, e)
        | inr (row, e) ↦ ground (arith, kept, e, text_le-bound row.expires_at now)
      ]

  -- A sweep keeps the reports that the observations it keeps name.
  pub sweep-Linked :
      Linked db.reports db.observations
      → Linked (sweep s db now).0.reports (sweep s db now).0.observations
  unfolding sweep
  sweep-Linked h =
      let kept = delete_where (old_observation horizon_of) db.observations in
      Linked-delete_reports horizon_of kept db.reports kept (References-self kept)
        (Linked-delete_where horizon_of db.reports db.observations h)
