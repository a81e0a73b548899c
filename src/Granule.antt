-- ===== src/Granule.antt =====
-- lib/realm/include/granule.h and lib/realm/src/granule.c: the granule array, its locks, and the
-- lookup of granules by address.
pub mod Ops
pub mod Find
pub mod Quiet
pub mod Clean
pub mod Locking
pub mod Pair
pub mod Set
pub mod Sorting
