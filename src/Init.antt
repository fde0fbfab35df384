-- ===== src/Init.antt =====
-- The init program, os/src/bin/init.
pub mod Context
pub mod Syscalls
pub mod Handlers
pub mod Entry
pub mod Main
