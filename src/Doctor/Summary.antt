-- ===== src/Doctor/Summary.antt =====
-- vpnpulse/cli/doctor.py: `local_checks`, `run_doctor` and `command_doctor`.
pub mod First
use vpn_pulse.Prelude.{
  ℕ, String, Bool, true, false, Option, none, some, List, [], ◌∷◌, ◌++◌, map, if◌then◌else◌, ◌==◌,
  string_eq,
}
use vpn_pulse.Prelude.Lists.{select, any, nonempty}
use vpn_pulse.Prelude.Sorting.{sort, by_key}
use vpn_pulse.Collectors.Registry.{Configured}
use vpn_pulse.Pipeline.Tables.{State}
use vpn_pulse.Reading.Cards.{ServerEntry}
use vpn_pulse.Reading.Overview.{Texts, CheckState, warn, fail, DoctorItem, admin_overview}
use vpn_pulse.Doctor.{
  Level, failure, warning, information, Check, item, is_failure, is_warning, is_finding,
  DoctorTexts, FileStatus, CollectorsMap, Endpoint, collectors_checks, https_check, telegram_check,
}

-- The database: no file, one that cannot be read, or what it holds.
pub data Storage : Type 0 where
  no_database broken : Storage
  opened : State → Storage

-- What the doctor looks at outside the database.
pub record Surroundings : Type 0 where
  pub token_file : Option String
  pub endpoint : Endpoint
  pub servers : List Configured
  pub collectors_map : CollectorsMap

pub record Summary : Type 0 where
  pub result : Level
  pub items : List Check
  pub next_command : Option String

-- The order of `items.sort`
unfoldable pub rank : Level → ℕ
rank failure = 0
rank warning = 1
rank information = 2

abbrev pub state_of : CheckState → Level
state_of fail = failure
state_of warn = warning

abbrev pub check_of : DoctorItem → Check
check_of d = item d.check (state_of d.state) d.next d.command

abbrev pub by_state : Check → Check → Bool
by_state = by_key (λ (c : Check). rank c.state)

unfoldable pub result_of : List Check → Level
unfolding any is_failure is_warning
result_of items =
    if any is_failure items then failure else if any is_warning items then warning else information

abbrev pub command_of : List Check → Option String
command_of [] = none
command_of (c ∷ items) = some c.command

unfoldable pub summary_of : List Check → Summary
unfolding result_of select is_finding
summary_of items = record {
  result = result_of items;
  items = items;
  next_command = command_of (select is_finding items);
}

-- EXIT
unfoldable pub exit_code : Level → ℕ
exit_code information = 0
exit_code warning = 1
exit_code failure = 2

module _ (texts : DoctorTexts) (status : String → FileStatus) (place : String → String) where
  abbrev pub storage_check : Storage → List Check
  storage_check no_database =
      item "storage" failure (texts.t "doctor.storage.missing") "vpn-pulse init" ∷ []
  storage_check broken =
      item "storage" failure (texts.t "doctor.storage.broken") "vpn-pulse doctor storage" ∷ []
  storage_check (opened st) = []

  unfoldable pub local_checks : ℕ → Surroundings → Storage → List Check
  unfolding telegram_check https_check collectors_checks
  local_checks now around storage =
      storage_check storage
      ++ telegram_check texts status place around.token_file
      ++ https_check texts status place now around.endpoint
      ++ collectors_checks texts status place around.servers around.collectors_map

  module _ (words : Texts) (silent_after interval : ℕ) (config : List ServerEntry) where
    abbrev pub overview_checks : Storage → ℕ → List Check
    overview_checks no_database now = []
    overview_checks broken now = []
    overview_checks (opened st) now =
        let overview = admin_overview words silent_after interval config st now in
        map check_of overview.doctor_items

    unfoldable pub run_doctor : ℕ → Surroundings → Storage → Summary
    unfolding local_checks admin_overview sort summary_of rank
    run_doctor now around storage =
        summary_of (sort by_state (overview_checks storage now ++ local_checks now around storage))

    -- `command_doctor`: the exit code, and what `--json` prints of it.
    unfoldable pub command_doctor : ℕ → Surroundings → Storage → Option String → ℕ × Summary
    unfolding run_doctor summary_of exit_code select
    command_doctor now around storage none =
        let summary = run_doctor now around storage in (exit_code summary.result, summary)
    command_doctor now around storage (some section) =
        let summary = run_doctor now around storage in
        let chosen = summary_of (select (λ (c : Check). c.check == section) summary.items) in
        (exit_code chosen.result, chosen)
