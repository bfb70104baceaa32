-- ===== src/Collectors.antt =====
-- What a server's helper prints and the observations made of it, and which servers have a
-- collector: vpnpulse/collectors, ssh.py and registry.py.
pub mod Helper
pub mod Facts
pub mod Ssh
pub mod Registry
