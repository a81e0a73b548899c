-- ===== src/Common/Bits.antt =====
-- `|` and `&` on fields of a word, as arithmetic, at every width.
mod Digits
mod Fields
mod Laws
mod Single
pub use Fields.*
pub use Laws.*
pub use Single.*
