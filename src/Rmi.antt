-- ===== src/Rmi.antt =====
-- runtime/rmi: the handlers of the commands of the Realm Management Interface.
pub mod Granule
pub mod Realm
pub mod Rtt
pub mod Rec
pub mod Run
pub mod Steps
