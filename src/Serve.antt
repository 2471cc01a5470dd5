-- ===== src/Serve.antt =====
-- The serve loop (src/main.rs): settling episodes, decisions after a refill, and backend restarts.
pub mod Durations
pub mod Settling
pub mod Decisions
pub mod Recovery
pub mod Tick
mod Scenarios
