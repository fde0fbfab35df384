-- ===== src/Tests.antt =====
-- The theorems at concrete inputs: a machine with three pages of memory and two cores.
pub mod Contexts
pub mod Entries
pub mod Drivers
pub mod Memory
pub mod Executions
pub mod Cores
pub mod Locks
pub mod Heap
pub mod Faults
pub mod Pipes
pub mod Services
pub mod Tables
pub mod Boot
pub mod Programs
