-- ===== src/Pipeline/Forever/Naps.antt =====
-- The loop keeps count and keeps time: vpnpulse/pipeline.py, `run_forever`.
use vpn_pulse.Prelude.{
  ℕ, zero, suc, ◌+◌, ◌-◌, ◌*◌, ◌/◌, ◌≤◌, ◌<◌, min, String, Bool, true, false, if◌then◌else◌, ◌≡◌,
  sym, ap, Option, none, some, List, [], ◌∷◌, ltb, arith, Bool-cases, inl, inr,
}
use vpn_pulse.Prelude.Lists.{All, any}
use vpn_pulse.Clock.{second}
use vpn_pulse.Alerts.Repository.{Naming}
use vpn_pulse.Alerts.Worker.{Messenger}
use vpn_pulse.Store.Tables.{Settings}
use vpn_pulse.Store.Probes.{ServerConfig}
use vpn_pulse.Pipeline.Tables.{State}
use vpn_pulse.Pipeline.Collect.{Ids}
use vpn_pulse.Pipeline.Loop.{Options, RunSummary, run_once}
use vpn_pulse.Pipeline.Loop.Upkeep.{Upkept, run_once-Upkept}
use vpn_pulse.Pipeline.Forever.{
  Ending, goes_on, stopped, interrupted, woken_after, Round, naps_within, naps, remaining_of,
  end_round, Lasted, counted, run_forever,
}

unfoldable pub total : List ℕ → ℕ
total [] = 0
total (n ∷ ns) = n + total ns

abbrev pub IsNap : ℕ → Type 0
IsNap n = (0 < n) × (n ≤ second)

naps_within-total :
    (fuel remaining : ℕ)
    → remaining ≤ fuel * second
    → (total (naps_within fuel remaining) ≡ remaining) × All IsNap (naps_within fuel remaining)
unfolding naps_within total
naps_within-total zero remaining h = (omega (arith, h), tt)
naps_within-total (suc fuel) remaining h = elim (Bool-cases (ltb 0 remaining)) [
  | inr e ↦ rw e (ground arith, tt)
  | inl e ↦
      let (sums, each) =
        naps_within-total fuel (remaining - min second remaining) (omega (arith, h)) in
      rw e (ground (arith, sums), ((ground arith, omega arith), each))
]

-- Between two runs the loop sleeps for exactly what is left of the interval, in naps of a second at
-- most, none of them empty: a stop is noticed within a second.
pub naps-total : (remaining : ℕ) → (total (naps remaining) ≡ remaining) × All IsNap (naps remaining)
unfolding naps
naps-total remaining = naps_within-total (suc (remaining / second)) remaining (omega arith)

counted-run_count :
    (o : Options) (now runs : ℕ) (st st' : State) (summary : Option RunSummary)
    → Upkept o now st st' summary
    → st.run_count + counted summary runs ≡ st'.run_count + runs
counted-run_count o now runs st st' none same = ap (λ (c : Option ℕ × ℕ). c.1 + runs) (sym same)
counted-run_count o now runs st st' (some summary) (count, _, _, _) = omega (arith, count)

-- A run counts itself once at most.
run_count-le :
    (o : Options) (now : ℕ) (st st' : State) (summary : Option RunSummary)
    → Upkept o now st st' summary
    → (st.run_count ≤ st'.run_count) × (st'.run_count ≤ st.run_count + 1)
run_count-le o now st st' none same =
    let count : st'.run_count ≡ st.run_count = ap (λ (c : Option ℕ × ℕ). c.1) same in
    (omega (arith, count), omega (arith, count))
run_count-le o now st st' (some summary) (count, _, _, _) =
    (omega (arith, count), omega (arith, count))

abbrev is_interruption : Ending → Bool
is_interruption goes_on = false
is_interruption stopped = false
is_interruption interrupted = true
is_interruption (woken_after n) = false

-- The runs that the loop may miss: one, if Ctrl+C falls between the two counts in one of the rounds.
abbrev pub missed : {M : Type 0} → List (Round M) → ℕ
missed rounds = if any (λ r. is_interruption r.ending) rounds then 1 else 0

-- The count of the runs after the loop, from the one before it.
abbrev pub Counts : ℕ → ℕ → ℕ → ℕ → Type 0
Counts before runs slack after = (before + runs ≤ after) × (after ≤ before + runs + slack)

module _ {M : Type 0} (o : Options) where
  end_round-run_count :
      (r : Round M) (rounds : List (Round M)) (now : ℕ) (st st' : State)
      (summary : Option RunSummary) (m : M) (pause : List ℕ) (rest : Lasted M)
      → Upkept o now st st' summary
      → Counts st'.run_count rest.runs (missed rounds) rest.state.run_count
      → let lasted = end_round r.ending summary st' m pause rest in
        Counts st.run_count lasted.runs (missed (r ∷ rounds)) lasted.state.run_count
  unfolding end_round any
  end_round-run_count r rounds now st st' summary m pause rest kept later = ending r.ending
    where
      ending :
          (e : Ending)
          → let lasted = end_round e summary st' m pause rest in
            Counts st.run_count lasted.runs
              (if (if is_interruption e then true else any (λ q. is_interruption q.ending) rounds)
                then 1
                else 0)
              lasted.state.run_count
      ending goes_on =
          let eq = counted-run_count o now rest.runs st st' summary kept in
          (omega (arith, eq, later.0), omega (arith, eq, later.1))
      ending stopped =
          let eq = counted-run_count o now 0 st st' summary kept in
          (omega (arith, eq), omega (arith, eq))
      ending interrupted =
          let counts = run_count-le o now st st' summary kept in
          (omega (arith, counts.0), omega (arith, counts.1))
      ending (woken_after n) =
          let eq = counted-run_count o now 0 st st' summary kept in
          (omega (arith, eq), omega (arith, eq))

module _ {M : Type 0} (ids : Ids) (names : Naming) (event_uuid : String → String)
    (send : Messenger M) (s : Settings) (o : Options) (servers : List ServerConfig) where
  -- The loop keeps count: over any sequence of rounds, runs that raise and runs that Ctrl+C ends among
  -- them, the number that it returns is by how much the pipeline's own count of runs has grown, or one
  -- less where Ctrl+C fell between the two counts. The interval of the maintenance is above zero.
  pub run_forever-run_count :
      (rounds : List (Round M)) (m : M) (st : State)
      → 0 < o.maintenance_interval
      → let lasted = run_forever ids names event_uuid send s o servers rounds m st in
        Counts st.run_count lasted.runs (missed rounds) lasted.state.run_count
  unfolding run_forever any
  run_forever-run_count [] m st h = (omega arith, omega arith)
  run_forever-run_count (r ∷ rounds) m st h =
      let (st', m', summary) =
        run_once ids names event_uuid send s o servers r.started r.given r.fault m st in
      end_round-run_count o r rounds r.started st st' summary m'
        (naps (remaining_of o.interval_seconds r))
        (run_forever ids names event_uuid send s o servers rounds m' st')
        (run_once-Upkept ids names event_uuid send s o servers r.started r.given r.fault m st h)
        (run_forever-run_count rounds m' st' h)
