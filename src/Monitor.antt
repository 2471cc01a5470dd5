-- ===== src/Monitor.antt =====
-- The queue monitor and the sampler of the fleet (src/queue_monitor.rs).
pub mod Queue
pub mod Reports
pub mod State
pub mod Fetches
pub mod Drive
pub mod Scheduler
mod Scenarios
