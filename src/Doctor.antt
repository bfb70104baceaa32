-- ===== src/Doctor.antt =====
-- vpnpulse/cli/doctor.py: `collectors_checks`, `https_check`, `local_checks`, `run_doctor` and
-- `command_doctor`. The state of files and what the connection to the endpoint gives are arguments;
-- the lines of details and the layout of the terminal are left out.
pub mod Summary
use vpn_pulse.Prelude.{
  ℕ, ◌-◌, ◌/◌, String, ◌<>◌, Bool, true, false, not, ◌&&◌, ◌||◌, Option, none, some, List, [], ◌∷◌,
  ◌++◌, map, ltb, if◌then◌else◌, ◌==◌, string_eq, option_eq, nat_eq,
}
use vpn_pulse.Prelude.Lists.{select, any, nonempty, find}
use vpn_pulse.Prelude.Sorting.{sort, by_key}
use vpn_pulse.Clock.{days}
use vpn_pulse.Collectors.Registry.{Configured, Entry, unreferenced}
use vpn_pulse.Reading.Overview.{CheckState, warn, fail, DoctorItem, Overview}

pub data Level : Type 0 where
  failure warning information : Level

pub record Check : Type 0 where
  pub check : String
  pub state : Level
  pub next : String
  pub command : String

-- `secret_file_status`
pub data FileStatus : Type 0 where
  in_order missing empty permissions : FileStatus

-- The collectors map: no file, one that is not valid, or its entries.
pub data CollectorsMap : Type 0 where
  no_map invalid_map : CollectorsMap
  map_of : List (String × Entry) → CollectorsMap

-- What is known of `app.public_url`: it is not given, it is no https URL, its host does not resolve,
-- its TLS fails, or the certificate ends at an instant.
pub data Endpoint : Type 0 where
  no_url not_https unresolved untrusted : Endpoint
  certified : ℕ → Endpoint

-- `Translator.t` in the language: a text, and the ones with a parameter.
pub record DoctorTexts : Type 0 where
  pub t : String → String
  pub missing_servers : List String → String
  pub of_collector : String → String → String
  pub expiring : ℕ → String

abbrev pub item : String → Level → String → String → Check
item check state next command = record {
  check = check;
  state = state;
  next = next;
  command = command;
}

unfoldable pub is_failure : Check → Bool
is_failure c = elim c.state [ failure ↦ true | warning ↦ false | information ↦ false ]

unfoldable pub is_warning : Check → Bool
is_warning c = elim c.state [ failure ↦ false | warning ↦ true | information ↦ false ]

unfoldable pub is_finding : Check → Bool
is_finding c = elim c.state [ failure ↦ true | warning ↦ true | information ↦ false ]

abbrev pub is_in_order : FileStatus → Bool
is_in_order in_order = true
is_in_order missing = false
is_in_order empty = false
is_in_order permissions = false

-- `place` is `path.parent / file`, of the collectors map.
module _ (texts : DoctorTexts) (status : String → FileStatus) (place : String → String) where
  open texts use {t, missing_servers, of_collector, expiring}

  abbrev pub missing_check : List String → List Check
  missing_check [] = []
  missing_check (id ∷ ids) =
      item "collectors" warning (missing_servers (id ∷ ids))
        ("vpn-pulse collector keygen " <> id <> " --host <server>")
      ∷ []

  abbrev pub files_check : String → Entry → Option Configured → List Check
  files_check ref e none = []
  files_check ref e (some server) =
      if not (is_in_order (status (place e.key_file)))
      then item "collectors" failure (of_collector "doctor.collectors.key" ref)
          ("vpn-pulse collector keygen " <> server.id <> " --host <server> --force")
        ∷ []
      else if not (is_in_order (status (place e.known_hosts_file)))
      then item "collectors" warning (of_collector "doctor.collectors.pin" ref)
          ("vpn-pulse collector pin " <> server.id)
        ∷ []
      else []

  unfoldable pub entry_checks : List Configured → List (String × Entry) → List Check
  unfolding find
  entry_checks servers [] = []
  entry_checks servers ((ref, e) ∷ entries) =
      let rest = entry_checks servers entries in
      if e.enabled
      then files_check ref e (find (λ (c : Configured). c.collector_ref == some ref) servers)
        ++ rest
      else rest

  abbrev pub map_checks : List Configured → String → List Configured → CollectorsMap → List Check
  map_checks config first servers no_map =
      item "collectors" information (t "doctor.collectors.none")
        ("vpn-pulse collector keygen " <> first <> " --host <server>")
      ∷ []
  map_checks config first servers invalid_map =
      item "collectors" failure (t "doctor.collectors.invalid") "vpn-pulse collector list" ∷ []
  map_checks config first servers (map_of entries) =
      missing_check (unreferenced entries config).0 ++ entry_checks servers entries

  abbrev pub checks_of : List Configured → List Configured → CollectorsMap → List Check
  checks_of config [] collectors_map = []
  checks_of config (c ∷ servers) collectors_map =
      map_checks config c.id (c ∷ servers) collectors_map

  unfoldable pub collectors_checks : List Configured → CollectorsMap → List Check
  unfolding entry_checks unreferenced select
  collectors_checks config collectors_map =
      checks_of config (select (λ (c : Configured). c.enabled) config) collectors_map

  abbrev pub https : Level → String → List Check
  https state next = item "https" state next "vpn-pulse doctor https" ∷ []

  -- The item of `https_check`, if there is one.
  unfoldable pub https_check : ℕ → Endpoint → List Check
  https_check now no_url = []
  https_check now not_https = https failure (t "doctor.https.invalid")
  https_check now unresolved = https failure (t "doctor.https.dns")
  https_check now untrusted = https failure (t "doctor.https.tls")
  https_check now (certified expiry) =
      if ltb expiry now
      then https failure (t "doctor.https.expired")
      else if ltb ((expiry - now) / days 1) 14
      then https warning (expiring ((expiry - now) / days 1))
      else []

  abbrev pub token_check : String → FileStatus → List Check
  token_check file in_order = []
  token_check file missing =
      item "telegram" failure (t "doctor.telegram.tokenMissing") "vpn-pulse doctor telegram" ∷ []
  token_check file empty =
      item "telegram" failure (t "doctor.telegram.tokenMissing") "vpn-pulse doctor telegram" ∷ []
  token_check file permissions =
      item "telegram" warning (t "doctor.telegram.permissions") ("chmod 600 " <> file) ∷ []

  -- With `telegram.bot_token_file`, where Telegram is configured.
  unfoldable pub telegram_check : Option String → List Check
  telegram_check none =
      item "telegram" information (t "doctor.telegram.missing") "vpn-pulse doctor telegram" ∷ []
  telegram_check (some file) = token_check file (status file)
