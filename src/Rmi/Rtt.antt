-- ===== src/Rmi/Rtt.antt =====
-- runtime/rmi/rtt.c: the handlers that work on the translation tables of a realm.
pub mod Validate
pub mod Create
pub mod Fold
pub mod Destroy
pub mod Unprotected
pub mod ReadEntry
pub mod Measure
pub mod Device
pub mod Data
pub mod DataDestroy
pub mod Ripas
