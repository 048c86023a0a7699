-- ===== src/Config.antt =====
-- internal/config: the settings of a run, resolved from the script, the environment and the command
-- line.
pub mod Scenario
pub mod Run
mod Tests
