-- ===== src/S2tt.antt =====
-- lib/realm/src/s2tt.c and lib/realm/include/table.h: stage 2 translation tables.
pub mod Level
pub mod Entry
pub mod Classes
pub mod Codec
pub mod Table
pub mod Walk
pub mod Descent
pub mod Unfold
