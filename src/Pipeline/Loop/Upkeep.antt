-- ===== src/Pipeline/Loop/Upkeep.antt =====
-- How often a run of the loop maintains the database.
use vpn_pulse.Prelude.{
  ℕ, ◌+◌, ◌<◌, String, Bool, true, false, Option, none, some, is_some, List, [], ◌∷◌, if◌then◌else◌,
  nat_eq, ◌≡◌, refl, ◌∙◌, ap, sym, arith,
}
use vpn_pulse.Alerts.Repository.{Naming, snapshot_of, state_before, save_evaluation}
use vpn_pulse.Alerts.Tables
use vpn_pulse.Alerts.Worker.{Messenger}
use vpn_pulse.Store.Tables.{Settings}
use vpn_pulse.Store.Retention.{Swept}
use vpn_pulse.Store.Probes.{ServerConfig}
use vpn_pulse.Domain.Models
use vpn_pulse.Alerts.Repository.{Change}
use vpn_pulse.Pipeline.Tables.{Outcome, MetricHour, State}
use vpn_pulse.Pipeline.Collect.{Ids, collect}
use vpn_pulse.Pipeline.Evaluate.{
  change_of, report_transition, evaluate_server, evaluate_ids, evaluate,
}
use vpn_pulse.Pipeline.Loop.{
  Options, Inputs, due_after, Maintained, finish_maintenance, maintain, RunSummary, count_run,
  end_run, maintenance_due, ensure_servers, notify, Fault, run_steps, run_once,
}

-- The fields that only the loop itself writes.
abbrev pub clock_of : State → Option ℕ × ℕ
clock_of st = (st.last_maintenance, st.run_count)

module _ (names : Naming) (event_uuid : String → String) (quiet confirmations now : ℕ) where
  report_transition-clock_of :
      (st : State) (id : String) (previous : Models.State) (c : Change)
      (saved : Tables.Tables × Option String)
      → clock_of
          (report_transition names event_uuid quiet confirmations now st id previous c saved).0
        ≡ clock_of st
  unfolding report_transition
  report_transition-clock_of st id previous c (alerts, none) = refl
  report_transition-clock_of st id previous c (alerts, some t) = refl

  evaluate_ids-clock_of :
      (server_ids : List String) (st : State)
      → clock_of (evaluate_ids names event_uuid quiet confirmations now server_ids st).0
        ≡ clock_of st
  unfolding evaluate_ids evaluate_server
  evaluate_ids-clock_of [] st = refl
  evaluate_ids-clock_of (id ∷ server_ids) st =
      let c = change_of names event_uuid quiet confirmations now st id in
      evaluate_ids-clock_of server_ids
        (evaluate_server names event_uuid quiet confirmations now st id).0
      ∙ report_transition-clock_of st id (state_before (snapshot_of st.alerts c.scope_key)) c
          (save_evaluation names quiet st.alerts c)

ensure_servers-clock_of :
    (servers : List ServerConfig) (now : ℕ) (st : State)
    → clock_of (ensure_servers servers now st) ≡ clock_of st
unfolding ensure_servers
ensure_servers-clock_of servers now st = ground arith

-- The time of the last maintenance after a run, from the one before it.
abbrev pub upkept : ℕ → ℕ → Option ℕ → Option ℕ
upkept interval now last = if due_after interval now last then some now else last

upkept-due :
    (interval now : ℕ) (last : Option ℕ)
    → 0 < interval
    → due_after interval now (upkept interval now last) ≡ false
unfolding due_after
upkept-due interval now none h = ground arith
upkept-due interval now (some last) h = ground arith

collect-clock_of :
    (ids : Ids) (freshness : ℕ) (run_id trace_id : String) (duration now : ℕ)
    (outcomes : List (String × Outcome)) (st : State)
    → clock_of (collect ids freshness run_id trace_id duration now outcomes st).0 ≡ clock_of st
unfolding collect
collect-clock_of ids freshness run_id trace_id duration now outcomes st = refl

evaluate-clock_of :
    (names : Naming) (event_uuid : String → String) (quiet confirmations now : ℕ)
    (servers : List ServerConfig) (st : State)
    → clock_of (evaluate names event_uuid quiet confirmations now servers st).0 ≡ clock_of st
unfolding evaluate
evaluate-clock_of names event_uuid quiet confirmations now servers st =
    evaluate_ids-clock_of names event_uuid quiet confirmations now _ st

-- What a run with this summary leaves of the clock.
abbrev pub Upkept : Options → ℕ → State → State → Option RunSummary → Type 0
Upkept o now st st' none = clock_of st' ≡ clock_of st
Upkept o now st st' (some summary) =
    (st'.run_count ≡ st.run_count + 1)
    × (is_some summary.maintenance ≡ maintenance_due o now st)
    × (st'.last_maintenance ≡ upkept o.maintenance_interval now st.last_maintenance)
    × (maintenance_due o now st' ≡ false)

finish_maintenance-clock_of :
    (now : ℕ) (st st' : State) (swept : Swept) (aggregates : ℕ)
    (found : Option (List MetricHour × ℕ))
    → clock_of st' ≡ clock_of st
    → let (st'', done) = finish_maintenance now st' swept aggregates found in
      clock_of st'' ≡ ((if is_some done then some now else st.last_maintenance), st.run_count)
unfolding finish_maintenance
finish_maintenance-clock_of now st st' swept aggregates none same = same
finish_maintenance-clock_of now st st' swept aggregates (some (hourly, rows)) same =
    ap (λ (c : Option ℕ × ℕ). (some now, c.1)) same

-- Maintenance fails before it writes the clock, or sets its time to now.
maintain-clock_of :
    (s : Settings) (o : Options) (now : ℕ) (st : State)
    → let (st', done) = maintain s o now st in
      clock_of st' ≡ ((if is_some done then some now else st.last_maintenance), st.run_count)
unfolding maintain
maintain-clock_of s o now st = finish_maintenance-clock_of now st _ _ _ _ refl

count_run-Upkept :
    (o : Options) (now : ℕ) (summary : Option Maintained → RunSummary) (st : State)
    (r : State × Option Maintained)
    → clock_of r.0 ≡ ((if is_some r.1 then some now else st.last_maintenance), st.run_count)
    → 0 < o.maintenance_interval
    → maintenance_due o now st ≡ true
    → ((done : Option Maintained) → (summary done).maintenance ≡ done)
    → let (st', result) = count_run summary r in Upkept o now st st' result
unfolding count_run
count_run-Upkept o now summary st (st', none) same h due f = same
count_run-Upkept o now summary st (st', some kept) same h due f =
    let last = ap (λ (c : Option ℕ × ℕ). c.0) same in
    let last' : st'.last_maintenance ≡ upkept o.maintenance_interval now st.last_maintenance =
      rw due last in
    (
      ap (λ (c : Option ℕ × ℕ). c.1 + 1) same,
      ap is_some (f (some kept)) ∙ sym due,
      last',
      ap (due_after o.maintenance_interval now) last'
          ∙ upkept-due o.maintenance_interval now st.last_maintenance h,
    )

end_run-Upkept :
    (b : Bool) (s : Settings) (o : Options) (now : ℕ) (summary : Option Maintained → RunSummary)
    (st st3 : State)
    → clock_of st3 ≡ clock_of st
    → 0 < o.maintenance_interval
    → maintenance_due o now st ≡ b
    → ((done : Option Maintained) → (summary done).maintenance ≡ done)
    → let (st4, result) = end_run b s o now summary st3 in Upkept o now st st4 result
unfolding end_run
end_run-Upkept false s o now summary st st3 same h due f =
    let last = ap (λ (c : Option ℕ × ℕ). c.0) same in
    (
      ap (λ (c : Option ℕ × ℕ). c.1 + 1) same,
      ap is_some (f none) ∙ sym due,
      rw due last,
      ap (due_after o.maintenance_interval now) last ∙ due,
    )
end_run-Upkept true s o now summary st st3 same h due f =
    let kept = maintain-clock_of s o now st3 in
    count_run-Upkept o now summary st (maintain s o now st3)
      (kept
        ∙ ap
            (λ (c : Option ℕ × ℕ).
              ((if is_some (maintain s o now st3).1 then some now else c.0), c.1))
            same)
      h due f

run_steps-Upkept :
    {M : Type 0} (ids : Ids) (names : Naming) (event_uuid : String → String) (send : Messenger M)
    (s : Settings) (o : Options) (servers : List ServerConfig) (now : ℕ) (given : Inputs) (m : M)
    (st : State)
    → 0 < o.maintenance_interval
    → let (st', _, result) = run_steps ids names event_uuid send s o servers now given m st in
      Upkept o now st st' result
unfolding run_steps notify
run_steps-Upkept ids names event_uuid send s o servers now given m st h =
    let st0 = ensure_servers servers now st in
    let st1 =
      (collect ids o.freshness_seconds given.run_id given.trace_id given.duration now given.outcomes
        st0).0 in
    let st2 = (evaluate names event_uuid o.quiet_seconds o.confirmations now servers st1).0 in
    let same : clock_of st2 ≡ clock_of st =
      evaluate-clock_of names event_uuid o.quiet_seconds o.confirmations now servers st1
      ∙ collect-clock_of ids o.freshness_seconds given.run_id given.trace_id given.duration now
          given.outcomes st0
      ∙ ensure_servers-clock_of servers now st in
    end_run-Upkept (maintenance_due o now st2) s o now _ st
      (notify send o.backoff_seconds now m st2).0 same h
      (sym (ap (λ (c : Option ℕ × ℕ). due_after o.maintenance_interval now c.0) same))
      (λ done. refl)

pub run_once-Upkept :
    {M : Type 0} (ids : Ids) (names : Naming) (event_uuid : String → String) (send : Messenger M)
    (s : Settings) (o : Options) (servers : List ServerConfig) (now : ℕ) (given : Inputs)
    (fault : Option (Fault M)) (m : M) (st : State)
    → 0 < o.maintenance_interval
    → let (st', _, result) = run_once ids names event_uuid send s o servers now given fault m st in
      Upkept o now st st' result
unfolding run_once
run_once-Upkept ids names event_uuid send s o servers now given none m st h =
    run_steps-Upkept ids names event_uuid send s o servers now given m st h
run_once-Upkept ids names event_uuid send s o servers now given (some f) m st h = refl
