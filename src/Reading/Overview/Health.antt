-- ===== src/Reading/Overview/Health.antt =====
-- When the administrator's overview reports that all is well.
use vpn_pulse.Prelude.{
  ℕ, Bool, true, false, not, ◌&&◌, ◌||◌, ◌≡◌, refl, ◌↔◌, Option, none, some, List, [], ◌∷◌, ◌++◌,
  ◌==◌, nat_eq, arith, Option-cases, Bool-cases, inl, inr,
}
use vpn_pulse.Prelude.Lists.{any, nonempty, nonempty-select}
use vpn_pulse.Pipeline.Tables.{CollectionRun, State}
use vpn_pulse.Reading.Cards.{ServerEntry, servers_config}
use vpn_pulse.Reading.Admin.{AdminProbe, admin_probes}
use vpn_pulse.Reading.Readiness.{last_run, is_recent, readiness, run_check}
use vpn_pulse.Reading.Overview.{
  Texts, DoctorItem, healthy, has_failed, is_quiet, servers_check, probes_check, collector_check,
  queue_check, stuck_count, verdict_of, admin_overview,
}

nonempty-append : (xs ys : List DoctorItem) → nonempty (xs ++ ys) ≡ (nonempty xs || nonempty ys)
nonempty-append [] ys = refl
nonempty-append (x ∷ xs) ys = refl

verdict_of-healthy :
    (items : List DoctorItem) → (verdict_of items ≡ healthy) ↔ (nonempty items ≡ false)
unfolding verdict_of any
verdict_of-healthy [] = (λ h. refl, λ h. refl)
verdict_of-healthy (d ∷ items) = ground (arith, Bool-cases (any has_failed (d ∷ items)))

nonempty-servers_check :
    (texts : Texts) (servers : List ServerEntry)
    → nonempty (servers_check texts servers) ≡ not (nonempty servers)
unfolding servers_check
nonempty-servers_check texts [] = refl
nonempty-servers_check texts (c ∷ servers) = refl

nonempty-probes_check :
    (texts : Texts) (now : ℕ) (has_servers : Bool) (probes : List AdminProbe)
    → nonempty (probes_check texts now has_servers probes).1
      ≡ (not (nonempty probes) || any is_quiet probes)
unfolding probes_check
nonempty-probes_check texts now has_servers [] = refl
nonempty-probes_check texts now has_servers (p ∷ probes) =
    ground (arith, nonempty-select is_quiet (p ∷ probes))

-- Whether there is a last run, and it was fine and recent.
unfoldable pub run_is_recent : ℕ → ℕ → Option CollectionRun → Bool
run_is_recent interval now none = false
run_is_recent interval now (some r) = is_recent interval now r

nonempty-collector_check :
    (texts : Texts) (interval now : ℕ) (has_servers : Bool) (run : Option CollectionRun)
    → nonempty (collector_check texts interval now has_servers run).1
      ≡ (has_servers && not (run_is_recent interval now run))
unfolding collector_check run_is_recent
nonempty-collector_check texts interval now false run = refl
nonempty-collector_check texts interval now true none = refl
nonempty-collector_check texts interval now true (some r) = ground arith

nonempty-queue_check :
    (texts : Texts) (stuck : ℕ) → nonempty (queue_check texts stuck) ≡ not (stuck == 0)
unfolding queue_check
nonempty-queue_check texts stuck = ground arith

module _ (texts : Texts) (silent_after interval : ℕ) (config : List ServerEntry) (st : State)
    (now : ℕ) where
  abbrev pub all_is_well : Bool
  all_is_well =
      nonempty (servers_config config)
      && (nonempty (admin_probes silent_after st.db now)
          && (not (any is_quiet (admin_probes silent_after st.db now))
              && (run_is_recent interval now (last_run none st.runs)
                  && stuck_count st.alerts now == 0)))

  -- The overview reports that all is well exactly when a server is enabled, a probe is enrolled and
  -- none is silent or stopped, the last run that ended was fine and is not older than three
  -- intervals, and no pending notice has been due for its next attempt for more than ten minutes;
  -- a notice that is held back or tried again may be older.
  pub admin_overview-healthy :
      ((admin_overview texts silent_after interval config st now).result ≡ healthy)
      ↔ (all_is_well ≡ true)
  unfolding admin_overview
  admin_overview-healthy =
      let servers = servers_config config in
      let probes = admin_probes silent_after st.db now in
      let run = last_run none st.runs in
      let c0 = servers_check texts servers in
      let c1 = (probes_check texts now (nonempty servers) probes).1 in
      let c2 = (collector_check texts interval now (nonempty servers) run).1 in
      let c3 = queue_check texts (stuck_count st.alerts now) in
      ground (
        arith,
        verdict_of-healthy (c0 ++ c1 ++ c2 ++ c3),
        nonempty-append c0 (c1 ++ c2 ++ c3),
        nonempty-append c1 (c2 ++ c3),
        nonempty-append c2 c3,
        nonempty-servers_check texts servers,
        nonempty-probes_check texts now (nonempty servers) probes,
        nonempty-collector_check texts interval now (nonempty servers) run,
        nonempty-queue_check texts (stuck_count st.alerts now),
      )

run_check-recent :
    (interval now : ℕ) (run : Option CollectionRun)
    → run_is_recent interval now run ≡ true
    → (run_check interval now run).ok ≡ true
unfolding run_check run_is_recent is_recent
run_check-recent interval now none h = cc
run_check-recent interval now (some r) h = elim (Option-cases r.finished_at) [
  | inl e ↦ absurd (ground (arith, h, e))
  | inr (t, e) ↦ ground (arith, h, e)
]

-- The overview is not more lenient than the readiness probe: when it reports that all is well, the
-- collector's check of `readiness` at the same instant passes.
pub admin_overview-readiness :
    (texts : Texts) (silent_after interval : ℕ) (config : List ServerEntry) (st : State) (now : ℕ)
    (answers : Bool)
    → (admin_overview texts silent_after interval config st now).result ≡ healthy
    → (readiness answers interval st now).collector.ok ≡ true
unfolding readiness
admin_overview-readiness texts silent_after interval config st now answers h =
    run_check-recent interval now (last_run none st.runs)
      (ground (arith, (admin_overview-healthy texts silent_after interval config st now).0 h))
