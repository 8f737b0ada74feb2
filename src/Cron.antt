-- ===== src/Cron.antt =====
-- src/cron: scheduled jobs, when they run next, and the service that keeps and runs them.
pub mod Types
pub mod Schedule
pub mod Service
pub mod Run
