-- ===== src/Queue.antt =====
-- messaging/queue: the task queue.
pub mod Task
pub mod Priority
pub mod Failure
pub mod Retry
pub mod Timer
pub mod Front
