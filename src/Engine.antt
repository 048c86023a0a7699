-- ===== src/Engine.antt =====
-- internal/engine: which virtual users run when.
pub mod Ramp
pub mod Arrival
pub mod Executor
mod Tests
