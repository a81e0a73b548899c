-- ===== src/Core.antt =====
-- runtime/core and lib/timers: running a realm, and what is done when it stops.
pub mod Area
pub mod Esr
pub mod Registers
pub mod Inject
pub mod Machine
pub mod Sysregs
pub mod Timers
pub mod Smc
pub mod Exit
pub mod Run
pub mod Handler
