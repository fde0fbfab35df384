-- ===== src/Memory.antt =====
-- os/src/bin/kernel/memory/mod.rs: reference counts of the physical pages.
-- A `u16` or `u64` is a native number; the checked operations of the source are the tests below.
pub mod Region
pub mod Allocator
