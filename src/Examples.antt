-- ===== src/Examples.antt =====
-- Concrete runs: each theorem with hypotheses is applied where they hold.
mod Setting
mod Commands
mod Entry
mod Tables
mod Runs
mod Power
mod Services
mod Interrupts
