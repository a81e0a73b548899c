-- ===== src/Core/Area.antt =====
-- The area of the processor that the registers of the host are saved to: which functions leave it alone.
pub mod Keeps
pub mod Tables
pub mod Services
pub mod Devices
pub mod Exits
pub mod Rounds
pub mod HostRegisters
