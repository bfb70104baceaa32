-- ===== src/Store.antt =====
-- vpnpulse/storage/store.py: everything that the API and the loop write, but for the alerts.
-- `Tables` has the rows and the parameters; one module for each group of methods of SqliteStore;
-- the modules below them hold what is proved.
pub mod Tables
pub mod Sessions
pub mod Enrollments
pub mod Probes
pub mod Notes
pub mod Reports
pub mod Retention
