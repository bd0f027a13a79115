-- ===== src/Sync.antt =====
-- kernel/sched/sync.c: spinlocks, semaphores, recursive locks and readers-writer locks.
pub mod Spin
pub mod Sema
pub mod Lock
pub mod RwLock
mod Tests
