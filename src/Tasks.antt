-- ===== src/Tasks.antt =====
-- src/task/task_runtime.{hpp,cpp}: the tasks that the relay server hands to agents.
pub mod State
pub mod Verification
pub mod Execution
pub mod Questions
pub mod Waiting
pub mod Claims
pub mod Summary
