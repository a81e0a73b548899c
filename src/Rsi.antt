-- ===== src/Rsi.antt =====
-- runtime/rsi: the services that a realm asks for.
pub mod Interface
pub mod Ipa
pub mod Memory
pub mod DevMem
pub mod Config
pub mod HostCall
pub mod Psci
pub mod Measurements
pub mod Attest
