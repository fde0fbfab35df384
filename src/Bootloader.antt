-- ===== src/Bootloader.antt =====
-- The boot loader, which runs on the machine and asks for a kernel (bootloader-loader), and the server
-- that sends it (bootloader-server).
pub mod Entry
pub mod Uart
pub mod Gpio
pub mod Loader
pub mod Server
