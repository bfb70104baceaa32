-- ===== src/Pipeline.antt =====
-- vpnpulse/pipeline.py: the monitoring loop. `Tables` has its state and inputs, one module for each
-- of its steps, and `Loop` composes them; the modules below them hold what is proved.
pub mod Tables
pub mod Collect
pub mod Evaluate
pub mod Aggregate
pub mod Loop
pub mod Forever
