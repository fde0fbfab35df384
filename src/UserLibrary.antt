-- ===== src/UserLibrary.antt =====
-- The library of the user programs, user/src.
pub mod Start
pub mod Syscalls
pub mod Context
pub mod Signals
pub mod Errno
pub mod Stdio
