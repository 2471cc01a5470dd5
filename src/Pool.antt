-- ===== src/Pool.antt =====
-- The runner pool (src/docker_backend.rs): slot reservations and the refill of missing runners.
pub mod Slots
pub mod Attempt
pub mod Memory
pub mod Pressure
pub mod Released
pub mod Outcome
pub mod Refill
pub mod Gates
pub mod Ensure
pub mod Drain
mod Scenarios
