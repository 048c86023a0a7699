-- ===== src/Ui.antt =====
-- internal/ui: the local controller, which runs one load test at a time for a page.
pub mod Redact
pub mod Config
pub mod Controller
pub mod Server
mod Tests
