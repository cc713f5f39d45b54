-- ===== src/Threading.antt =====
-- kernel/src/threading: the threads of a processor take turns.
pub mod Scheduler
pub mod Yield
