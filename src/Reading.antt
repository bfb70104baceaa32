-- ===== src/Reading.antt =====
-- vpnpulse/storage/read_model.py: what the API shows, computed from the tables at every request.
pub mod Timeline
pub mod Evidence
pub mod Cards
pub mod Status
pub mod Feed
pub mod Points
pub mod Admin
pub mod Readiness
pub mod Overview
