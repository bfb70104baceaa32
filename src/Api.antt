-- ===== src/Api.antt =====
-- vpnpulse/api: the guards before every request, and the routes over the store.
pub mod Limiter
pub mod Guards
pub mod Analytics
pub mod Routes
pub mod Handle
