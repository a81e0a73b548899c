-- ===== src/State.antt =====
-- The state of the monitor: lib/realm/include/granule_types.h, realm.h, rec.h and runtime/core/vmid.c,
-- and the commands over it.
mod Registers
mod Types
mod Monad
mod Hardware
pub mod Fvp
pub use Registers.*
pub use Types.*
pub use Monad.*
pub use Hardware.*
