-- ===== src/Pipeline/Forever.antt =====
-- `Pipeline.run_forever`: the runs one after the other, and the naps between them. The world is a
-- list: what each round meets, for as long as it lasts.
pub mod Naps
use vpn_pulse.Prelude.{
  ℕ, zero, suc, ◌+◌, ◌-◌, ◌*◌, ◌/◌, min, String, Bool, true, false, Option, none, some, List, [],
  ◌∷◌, is_some, if◌then◌else◌, ltb,
}
use vpn_pulse.Prelude.Lists.{take}
use vpn_pulse.Clock.{second, seconds}
use vpn_pulse.Alerts.Repository.{Naming}
use vpn_pulse.Alerts.Worker.{Messenger}
use vpn_pulse.Store.Tables.{Settings}
use vpn_pulse.Store.Probes.{ServerConfig}
use vpn_pulse.Pipeline.Tables.{State}
use vpn_pulse.Pipeline.Collect.{Ids}
use vpn_pulse.Pipeline.Loop.{Options, Inputs, Fault, RunSummary, run_once}

-- What may end the loop in a round: `stop` or Ctrl+C while it runs, where Ctrl+C may also fall between
-- the two counts, the pipeline's own and the loop's; or either of them after some naps. Ctrl+C before
-- the counts leaves what a run leaves that raises there. `on_run` touches nothing of the pipeline, and
-- an error of it ends nothing.
pub data Ending : Type 0 where
  goes_on : Ending
  stopped : Ending
  interrupted : Ending
  woken_after : ℕ → Ending

-- A round: the clock before the run and after it, and what the run is given.
pub record Round (M : Type 0) : Type 0 where
  pub started : ℕ
  pub given : Inputs
  pub fault : Option (Fault M)
  pub ended : ℕ
  pub ending : Ending

-- The naps, each of a second at most; `fuel` is more than the seconds that remain.
unfoldable pub naps_within : ℕ → ℕ → List ℕ
naps_within zero remaining = []
naps_within (suc fuel) remaining =
    let rest = naps_within fuel (remaining - min second remaining) in
    if ltb 0 remaining then min second remaining ∷ rest else []

unfoldable pub naps : ℕ → List ℕ
unfolding naps_within
naps remaining = naps_within (suc (remaining / second)) remaining

-- `max(0.0, interval - (self.now() - started))`; a clock that went back makes it longer.
unfoldable pub remaining_of : {M : Type 0} → ℕ → Round M → ℕ
remaining_of interval_seconds r = seconds interval_seconds + r.started - r.ended

pub record Lasted (M : Type 0) : Type 0 where
  pub runs : ℕ
  pub state : State
  pub messenger : M
  pub slept : List (List ℕ)

-- `runs += 1`, unless the run raised.
abbrev pub counted : Option RunSummary → ℕ → ℕ
counted none n = n
counted (some _) n = n + 1

-- What a round comes to, with what the later rounds come to.
unfoldable pub end_round :
    {M : Type 0} → Ending → Option RunSummary → State → M → List ℕ → Lasted M → Lasted M
end_round stopped summary st m pause rest = record {
  runs = counted summary 0;
  state = st;
  messenger = m;
  slept = [];
}
end_round interrupted summary st m pause rest = record {
  runs = 0;
  state = st;
  messenger = m;
  slept = [];
}
end_round (woken_after n) summary st m pause rest = record {
  runs = counted summary 0;
  state = st;
  messenger = m;
  slept = take n pause ∷ [];
}
end_round goes_on summary st m pause rest = record rest {
  runs = counted summary rest.runs;
  slept = pause ∷ rest.slept;
}

module _ {M : Type 0} (ids : Ids) (names : Naming) (event_uuid : String → String)
    (send : Messenger M) (s : Settings) (o : Options) (servers : List ServerConfig) where
  unfoldable pub run_forever : List (Round M) → M → State → Lasted M
  unfolding naps remaining_of end_round
  run_forever [] m st = record { runs = 0; state = st; messenger = m; slept = [] }
  run_forever (r ∷ rounds) m st =
      let (st', m', summary) =
        run_once ids names event_uuid send s o servers r.started r.given r.fault m st in
      end_round r.ending summary st' m' (naps (remaining_of o.interval_seconds r))
        (run_forever rounds m' st')
