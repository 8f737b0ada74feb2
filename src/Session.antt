-- ===== src/Session.antt =====
-- src/session/session_manager.{hpp,cpp}: conversations, the part of one that goes to the model, and
-- the manager that keeps them in memory and in the database.
pub mod Types
pub mod History
pub mod Manager
