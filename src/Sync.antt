-- ===== src/Sync.antt =====
-- The locks of kernel_api/src/sync: one module for each file.
pub mod Mutex
pub mod Once
pub mod RwLock
