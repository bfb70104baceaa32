-- ===== src/Tests.antt =====
-- Runs of the theorems on concrete inputs, by part.
pub mod Judging
pub mod Signing
pub mod Messages
pub mod Rows
pub mod Reporting
pub mod Looping
pub mod Serving
pub mod Showing
pub mod Answering
pub mod Archiving
pub mod Diagnosing
pub mod Noting
