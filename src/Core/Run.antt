-- ===== src/Core/Run.antt =====
-- runtime/core/run.c: the processor is handed to a realm and back.
pub mod Switch
pub mod Loop
