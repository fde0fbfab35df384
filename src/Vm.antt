-- ===== src/Vm.antt =====
-- Translation tables and the ELF loader: os/src/os/vm, of which user/src/os/vm has a copy.
pub mod Tables
pub mod Elf
