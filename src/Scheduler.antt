-- ===== src/Scheduler.antt =====
-- The directory scheduler: events, awaiters, and the executors.
pub mod Policy
pub mod Event
pub mod Awaiter
pub mod Wakeup
pub mod Epoll
pub mod Uring
pub mod Kqueue
pub mod Batch
pub mod Backends
