-- ===== src/Rmi/Rec.antt =====
-- runtime/rmi/rec.c: the life of an execution context of a realm.
pub mod Params
pub mod Create
pub mod Destroy
pub mod Laws
pub mod Freeing
pub mod Destroyed
