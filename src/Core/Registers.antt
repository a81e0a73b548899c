-- ===== src/Core/Registers.antt =====
-- The registers of the processor as the state keeps them.
use acai_rmm.Common.{ℕ}
use acai_rmm.State.{Cpu, Command, done, ◌>>=◌, read_rec, write_rec}
use acai_rmm.Common.{update}

abbrev pub read_cpu : Command Cpu
read_cpu s = done s.cpu s

abbrev pub write_cpu : Cpu → Command (Unit {0})
write_cpu c s = done tt (record s { cpu = c })

abbrev pub write_elr_el2 : ℕ → Command (Unit {0})
write_elr_el2 v s = done tt (record s { cpu = record s.cpu { elr_el2 = v } })

abbrev pub write_cptr_el2 : ℕ → Command (Unit {0})
write_cptr_el2 v s = done tt (record s { cpu = record s.cpu { cptr_el2 = v } })

-- A general register of an execution context.
abbrev pub write_reg : ℕ → ℕ → ℕ → Command (Unit {0})
write_reg g_rec i v = do r ← read_rec g_rec; write_rec g_rec (record r { regs = update r.regs i v })
