-- ===== src/Alerts.antt =====
-- vpnpulse/storage/repository.py: state snapshots, transitions and the notification queue.
-- `Tables` has the rows, `Policy` says who is told, `Repository` is StateRepository and `Worker`
-- is NotificationWorker; the other modules hold what is proved of them.
pub mod Tables
pub mod Policy
pub mod Queries
pub mod Repository
pub mod Worker
pub mod Snapshots
pub mod Audience
pub mod Repeats
pub mod Delivery
pub mod Collapse
