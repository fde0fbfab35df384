-- ===== src/Exception.antt =====
-- The synchronous exceptions of os/src/bin/kernel/exception: the decoding of the syndrome register,
-- and the resolution of page faults.
pub mod Classes
pub mod Codes
pub mod Syndrome
pub mod PageFault
pub mod Interrupts
pub mod Laws
