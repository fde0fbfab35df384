-- ===== src/Sync.antt =====
-- The locks of os/src/sync/mod.rs and the cell of os/src/cell/mod.rs, each as the steps on its
-- atomics of any number of threads. Memory orderings are left out: the atomics are sequentially
-- consistent.
pub mod Threads
pub mod SpinLock
pub mod RwLock
pub mod OnceLock
