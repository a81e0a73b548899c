-- ===== src/Core/Exit.antt =====
-- runtime/core/exit.c: an exception that ends the run of a realm.
pub mod Aborts
pub mod Services
pub mod Sync
