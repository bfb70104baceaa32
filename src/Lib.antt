-- ===== src/Lib.antt =====
-- VPN Pulse watches a group's VPN servers. Collectors and probes send observations, the loop judges
-- each server from the fresh ones, the changes of state become messages for a Telegram group and
-- its administrator, and a store keeps sessions, probes, reports and notes for the API.
--
-- Which module models what:
--   Prelude   lists, dicts and SQL tables as Python and SQLite use them, sorting by a stable insertion
--   Clock     the order of the texts that the columns hold for instants (`_iso` of the store)
--   Domain    src/vpnpulse/domain: `Models` has the dataclasses, `Evaluator` is `evaluate_scope`,
--             `Recommender` is `recommend_server`; `Evidence`, `Verdict`, `Ranking` and `Choice` are
--             about what they return
--   Alerts    src/vpnpulse/storage/repository.py: `Policy` is `notification_for`, `Queries` and
--             `Repository` are `StateRepository`, `Worker` is `NotificationWorker`
--   Store     src/vpnpulse/storage/store.py: one module for each group of methods of `SqliteStore`;
--             `Retention` has `audit`, `sweep` and `sync_servers`
--   Pipeline  src/vpnpulse/pipeline.py: `Collect`, `Evaluate`, `Aggregate`, `Loop` (`run_once`)
--             and `Forever` (`run_forever`)
--   Access    src/vpnpulse/auth.py: `validate_telegram_init_data`; `Membership` is
--             `TelegramMembership` of src/vpnpulse/telegram.py
--   Api       src/vpnpulse/api: `Limiter` is `RateLimiter` of security.py, `Guards` the middleware and
--             the guards of app.py, `Routes` its routes, `Handle` a request through both,
--             `Analytics` is `accept_batch` of analytics.py
--   Reading   src/vpnpulse/storage/read_model.py: `Timeline` (states over time, availability),
--             `Evidence`, `Cards`, `Status`, `Points` (the chart), `Feed` (the events), `Admin`,
--             `Readiness` and `Overview`
--   Migrations  `apply_migrations` of src/vpnpulse/storage/database.py
--   Collectors  src/vpnpulse/collectors: of ssh.py, `Helper` is the call of the helper, `Facts` is
--             `metrics_from`, `Ssh` is `SshCollector.collect`; `Registry` is registry.py
--   Bot       src/vpnpulse/bot.py: `TelegramBot`
--   Doctor    src/vpnpulse/cli/doctor.py: the checks; `Summary` is `run_doctor` and `command_doctor`
--   Backup    src/vpnpulse/cli/backup.py: the archive of `command_backup` and `_verify_archive`
--   Note      src/vpnpulse/cli/note.py: `parse_expiry`, `command_set` and `command_clear`
--   Tests     runs at concrete inputs
--
-- How they meet: `Pipeline.Loop.run_once` mirrors the configuration on the first run, collects into
-- the store's tables, evaluates each enabled server with `Domain.Evaluator` and saves the verdict
-- with `Alerts.Repository`, delivers the queue with `Alerts.Worker`, and sweeps and aggregates when
-- maintenance is due. `Api.Handle.handle` is a request to the API: it passes the middleware of
-- `Api.Guards`, and `Api.Routes.Serve.serve` asks `Api.Guards` for the session or the probe, and calls
-- the store, the sign-in and the read model. The routes know the read model by the record `ReadModel`, the protocol of that name; `Reading` computes its answers from the
-- same tables that the loop writes.
-- `Doctor.Summary.run_doctor` puts the items of `Reading.Overview` before its own, and asks
-- `Collectors.Registry` for the servers without a collector; `Note` writes the notes that
-- `Store.Notes.note_state` shows.
--
-- How it is modelled. A table is the list of its rows in the order of rowid, and a transaction is a
-- function from tables to tables. An instant is a number of microseconds since 1970; where a
-- statement compares texts of instants, the comparison is `Clock.text_le` or `Clock.text_lt`, which
-- differ from the order of the instants within one second. Every number is a natural one: a horizon
-- before 1970 stops at 0. Divisions of integers are exact quotients (`Ratio`). Tokens, ids, UUIDs,
-- SHA-256, the text of a number, the clock, what collectors return and what the messenger answers
-- are arguments. Loops are structural recursion over the rows. Only `read_pages`, a client of the
-- feed, has fuel: more pages than there are events are enough.
--
-- Not modelled: the schemas of the API's bodies, the command line that ssh is called with, the other
-- commands, the messenger and the development server; `admin_server` and what a collector's payload
-- adds to a server's card; errors of SQLite, but for a clash of keys where a statement can meet one,
-- and for a run of the loop, where `Pipeline.Loop.Fault` is what a step left that raised;
-- JSON that does not parse, and the log.
pub mod Prelude
pub mod Clock
pub mod Domain
pub mod Alerts
pub mod Store
pub mod Pipeline
pub mod Access
pub mod Api
pub mod Reading
pub mod Migrations
pub mod Bot
pub mod Collectors
pub mod Backup
pub mod Doctor
pub mod Note
pub mod Tests
