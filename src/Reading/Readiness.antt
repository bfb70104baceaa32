-- ===== src/Reading/Readiness.antt =====
-- storage/read_model.py: the last run, and `readiness`.
use vpn_pulse.Prelude.{
  ℕ, ◌-◌, ◌*◌, ◌/◌, Bool, true, false, not, ◌&&◌, Option, none, some, List, [], ◌∷◌, leb, is_some,
  if◌then◌else◌, ◌==◌, string_eq, nat_eq,
}
use vpn_pulse.Clock.{second, text_le}
use vpn_pulse.Alerts.Tables.{Notification, pending, queue_state_eq}
use vpn_pulse.Pipeline.Tables.{RunResult, ok, CollectionRun, State}
use vpn_pulse.Reading.Admin.{is_silent}

-- The last run that has ended: ORDER BY started_at DESC LIMIT 1, by the texts.
unfoldable pub last_run : Option CollectionRun → List CollectionRun → Option CollectionRun
last_run best [] = best
last_run none (r ∷ runs) = last_run (if is_some r.finished_at then some r else none) runs
last_run (some b) (r ∷ runs) =
    last_run (some (if is_some r.finished_at && text_le b.started_at r.started_at then r else b))
      runs

abbrev pub ended_ok : Option RunResult → Bool
ended_ok (some ok) = true
ended_ok _ = false

-- Whether a run was fine and ended within three intervals.
unfoldable pub is_recent : ℕ → ℕ → CollectionRun → Bool
is_recent interval now r = ended_ok r.result && not (is_silent (3 * interval) now r.finished_at)

pub record Check : Type 0 where
  pub ok : Bool
  pub age_seconds : Option ℕ

pub record Readiness : Type 0 where
  pub ready : Bool
  pub database : Check
  pub collector : Check
  pub queue : Check

unfoldable pub run_check : ℕ → ℕ → Option CollectionRun → Check
run_check interval now none = record { ok = false; age_seconds = none }
run_check interval now (some r) = elim r.finished_at [
  | none ↦ record { ok = false; age_seconds = none }
  | some t ↦ record {
    ok = ended_ok r.result && leb ((now - t) / second * second) (3 * interval);
    age_seconds = some ((now - t) / second);
  }
]

-- MIN(created_at) of the messages that wait.
unfoldable pub oldest_pending : List Notification → Option ℕ
oldest_pending [] = none
oldest_pending (q ∷ queue) =
    let rest = oldest_pending queue in
    if q.state == pending then earlier q.created_at rest else rest
  where
    earlier : ℕ → Option ℕ → Option ℕ
    earlier t none = some t
    earlier t (some u) = some (if leb t u then t else u)

abbrev pub age_of : ℕ → Option ℕ → ℕ
age_of now none = 0
age_of now (some t) = (now - t) / second

-- `readiness`; the storage check always passes. `answers` is whether the database does.
unfoldable pub readiness : Bool → ℕ → State → ℕ → Readiness
unfolding run_check oldest_pending last_run
readiness answers interval st now =
    let run = run_check interval now (last_run none st.runs) in
    let age = age_of now (oldest_pending st.alerts.queue) in
    record {
      ready = answers && (run.ok && leb age 600);
      database = record { ok = answers; age_seconds = none };
      collector = run;
      queue = record { ok = leb age 600; age_seconds = some age };
    }
