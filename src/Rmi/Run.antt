-- ===== src/Rmi/Run.antt =====
-- runtime/rmi/run.c: the host enters an execution context.
pub mod Completion
pub mod Enter
