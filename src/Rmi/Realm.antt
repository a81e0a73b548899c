-- ===== src/Rmi/Realm.antt =====
-- runtime/rmi/realm.c: the life of a realm.
pub mod Params
pub mod Create
pub mod Destroy
pub mod Laws
pub mod InUse
pub mod Roots
