-- ===== src/Collectors/Ssh.antt =====
-- collectors/ssh.py, `SshCollector.collect`: one call of the helper becomes one or two observations.
pub mod Near
use vpn_pulse.Prelude.{
  ℕ, ◌+◌, ◌*◌, ◌/◌, String, Bool, true, false, not, ◌&&◌, ◌||◌, Option, none, some, List, [], ◌∷◌,
  ltb, leb, if◌then◌else◌,
}
use vpn_pulse.Clock.{second, seconds}
use vpn_pulse.Domain.Models.{Ratio, ObservationResult, success, failure}
use vpn_pulse.Pipeline.Tables.{Collected, Outcome, items, raised}
use vpn_pulse.Collectors.Helper.{
  Value, Peers, System, Payload, HelperAnswer, answered, refused, Completed, call_helper, num,
}
use vpn_pulse.Collectors.Facts.{Counters, Facts, metrics_from}

abbrev pub collected :
    String → String → ObservationResult → ℕ → List (String × Option ℕ) → Option String → Collected
collected server_id source result observed_at connections error_code = record {
  server_id = server_id;
  source = source;
  result = result;
  observed_at = observed_at;
  metrics = record {
    checks = [];
    full_vpn_test = none;
    control_internet_ok = none;
    route_verified = none;
    network_type = none;
    via_server_id = none;
    connections = connections;
  };
  error_code = error_code;
  network_scope = "all";
  full_vpn_test = false;
  control_internet_ok = none;
  probe_id = none;
}

-- A time of the helper more than a minute from now is not believed. Nothing stands for the error of
-- `fromtimestamp`, of a time after the year 9999; NaN and the infinities, which are no ratio and raise
-- in the same way, are left out.
unfoldable pub believed : ℕ → Option Ratio → Option ℕ
believed now none = some now
believed now (some r) =
    let observed = r.num * second / r.den in
    if leb (seconds 253402300800) observed
    then none
    else some (
        if ltb (now + seconds 60) observed || ltb (observed + seconds 60) now
        then now
        else observed)

-- `_observed_at`
unfoldable pub observed_at_of : Payload → ℕ → Option ℕ
unfolding believed num
observed_at_of payload now = believed now (num none payload.observed_at)

-- `if active:`
abbrev pub human_activity : String → ℕ → Option ℕ → List Collected
human_activity server_id at none = []
human_activity server_id at (some active) =
    if ltb 0 active
    then collected server_id "human_activity" success at (("amneziawg", some active) ∷ []) none ∷ []
    else []

abbrev pub items_of : String → ℕ → Facts → List Collected
items_of server_id at facts =
    collected server_id "collector" success at (("amneziawg", facts.connections) ∷ []) none
    ∷ human_activity server_id at facts.connections

-- The rest of `collect`, where the time of the observation is known.
unfoldable pub observe_at :
    String → ℕ → Option Counters → Peers → System → Payload → Option ℕ → Outcome × Option Counters
unfolding metrics_from
observe_at server_id freshness last peers system payload none = (raised, last)
observe_at server_id freshness last peers system payload (some at) =
    let (facts, counted) = metrics_from freshness last peers system payload at in
    (items (items_of server_id at facts), counted)

unfoldable pub observe : String → ℕ → Option Counters → ℕ → HelperAnswer → Outcome × Option Counters
unfolding observed_at_of observe_at
observe server_id freshness last now (refused error_code) =
    (items (collected server_id "collector" failure now [] (some error_code) ∷ []), last)
observe server_id freshness last now (answered peers system payload) =
    observe_at server_id freshness last peers system payload (observed_at_of payload now)

unfoldable pub collect :
    (String → String)
    → (String → Option Payload)
    → String
    → ℕ
    → Option Counters
    → ℕ
    → Completed
    → Outcome × Option Counters
unfolding observe call_helper
collect lower loads server_id freshness last now completed =
    observe server_id freshness last now (call_helper lower loads completed)
