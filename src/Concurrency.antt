-- ===== src/Concurrency.antt =====
-- concurrency: the semaphore manager and the worker pool.
pub mod Manager
pub mod Worker
