-- ===== src/Core/Exit/Sync.antt =====
-- runtime/core/exit.c: the exceptions of a realm, by their kind.
use acai_rmm.Common.{
  ℕ, ◌+◌, ◌*◌, ◌^◌, Bool, true, false, not, ◌||◌, ◌==◌, ◌!=◌, if◌then◌else◌, bit_and, bit_or,
}
use acai_rmm.State.{
  Platform, Command, fault, assertion, pure, ◌>>=◌, ◌>>◌, assert, read_rec, write_rec,
}
use acai_rmm.Rsi.Interface.{RecExit, rmi_exit_sync}
use acai_rmm.Core.Esr.{
  complement, mask, esr_el2_ec_mask, esr_el2_ec_wfx, esr_el2_ec_hvc, esr_el2_ec_smc,
  esr_el2_ec_sysreg, esr_el2_ec_inst_abort, esr_el2_ec_data_abort, esr_el2_ec_fpu,
}
use acai_rmm.Core.Machine.{Machine}
use acai_rmm.Core.Registers.{read_cpu, write_cpu, write_cptr_el2}
use acai_rmm.Core.Inject.{realm_inject_undef_abort}
use acai_rmm.Core.Sysregs.{handle_sysreg_access_trap}
use acai_rmm.Core.Exit.Aborts.{system_abort, handle_data_abort, handle_instruction_abort}
use acai_rmm.Core.Exit.Services.{advance_pc, handle_realm_rsi, rmi_exit_irq}

abbrev pub rmi_exit_fiq : ℕ
rmi_exit_fiq = 2

abbrev pub rmi_exit_serror : ℕ
rmi_exit_serror = 6

-- `ARM_EXCEPTION_*_LEL`
abbrev pub arm_exception_sync_lel : ℕ
arm_exception_sync_lel = 0

abbrev pub arm_exception_irq_lel : ℕ
arm_exception_irq_lel = 1

abbrev pub arm_exception_fiq_lel : ℕ
arm_exception_fiq_lel = 2

abbrev pub arm_exception_serror_lel : ℕ
arm_exception_serror_lel = 3

-- The two fields of CPTR_EL2, of which 3 traps nothing and 0 everything.
abbrev pub with_fpen : ℕ → ℕ → ℕ
with_fpen v cptr = bit_or (bit_and cptr (complement (mask 20 2))) (v * 2 ^ 20)

abbrev pub with_zen : ℕ → ℕ → ℕ
with_zen v cptr = bit_or (bit_and cptr (complement (mask 16 2))) (v * 2 ^ 16)

-- The vector registers of the host go to the buffer of the processor, by the one of its two
-- pointers that is set.
unfoldable pub save_ns_vectors : Command (Unit {0})
save_ns_vectors = do
  c ← read_cpu
  assert (c.ns_data.sve_set || c.ns_data.fpu_set)
  write_cpu (record c { ns_data = record c.ns_data { vectors = c.vectors } })

-- The vector registers of the realm are loaded at their first use; `rec->ns` is not NULL then.
unfoldable pub load_vectors : ℕ → Command (Unit {0})
unfolding save_ns_vectors
load_vectors g_rec = do
  c ← read_cpu
  write_cptr_el2 (with_zen 3 (with_fpen 3 c.cptr_el2))
  r ← read_rec g_rec
  assert r.ns_set
  save_ns_vectors
  c' ← read_cpu
  write_cpu (record c' { vectors = r.fpu_ctx.fpu })
  write_rec g_rec (record r { fpu_ctx = record r.fpu_ctx { used = true } })
  c'' ← read_cpu
  write_cptr_el2 (with_zen 0 c''.cptr_el2)

unfoldable pub inject_serror : ℕ → ℕ → Command (Unit {0})
inject_serror g_rec vsesr = do
  r ← read_rec g_rec
  write_rec g_rec (record r { serror_info = record { vsesr_el2 = vsesr; inject = true } })

-- The fields of an SError syndrome that the host is shown: IDS, AET, EA and DFSC.
abbrev pub esr_serror_mask : ℕ
esr_serror_mask = 2 ^ 24 + mask 10 3 + 2 ^ 9 + 0x3f

abbrev pub abort_if : Bool → Command (Unit {0})
abort_if true = system_abort
abort_if false = pure tt

-- The kinds of error: UEU and UER are injected and, with CE and UEO, reported.
unfoldable pub handle_exception_serror_lel : ℕ → RecExit → Command (Bool × RecExit)
unfolding inject_serror
handle_exception_serror_lel g_rec rec_exit = do
  c ← read_cpu
  let esr = c.esr_el2
  let aet = bit_and esr (mask 10 3)
  let shown : RecExit = record rec_exit { esr = bit_and esr esr_serror_mask }
  abort_if (bit_and esr (2 ^ 24) != 0)
  abort_if (bit_and esr 0x3f != 1)
  if aet == 1 * 2 ^ 10 || aet == 3 * 2 ^ 10
      then (do inject_serror g_rec esr; pure (false, shown))
      else if aet == 6 * 2 ^ 10 || aet == 2 * 2 ^ 10
      then pure (false, shown)
      else if aet == 0 * 2 ^ 10
      then system_abort
      else (λ s. fault assertion)

unfoldable pub handle_exception_irq_lel : RecExit → Bool × RecExit
handle_exception_irq_lel rec_exit = (false, record rec_exit { exit_reason = rmi_exit_irq })

module _ (plat : Platform) (m : Machine) where
  unfoldable pub handle_exception_sync : ℕ → RecExit → Command (Bool × RecExit)
  unfolding load_vectors
  handle_exception_sync g_rec rec_exit = do
    c ← read_cpu
    let esr = c.esr_el2
    let ec = bit_and esr esr_el2_ec_mask
    if ec == esr_el2_ec_wfx
        then (do
          advance_pc
          pure (false, record rec_exit { esr = bit_and esr (esr_el2_ec_mask + 1) }))
        else if ec == esr_el2_ec_hvc
        then (do realm_inject_undef_abort; pure (true, rec_exit))
        else if ec == esr_el2_ec_smc
        then (do
          (handled, e) ← handle_realm_rsi plat m g_rec rec_exit
          if not handled then pure (false, e) else (do advance_pc; pure (true, e)))
        else if ec == esr_el2_ec_sysreg
        then (do
          (ret, e) ← handle_sysreg_access_trap m g_rec rec_exit esr
          advance_pc
          pure (ret, e))
        else if ec == esr_el2_ec_inst_abort
        then handle_instruction_abort plat g_rec rec_exit esr
        else if ec == esr_el2_ec_data_abort
        then handle_data_abort plat g_rec rec_exit esr
        else if ec == esr_el2_ec_fpu
        then (do load_vectors g_rec; pure (true, rec_exit))
        else pure (false, rec_exit)

  -- The syndrome registers are kept for the next entry; the syndrome is given.
  unfoldable pub keep_run_info : ℕ → ℕ → Command (Unit {0})
  keep_run_info g_rec esr = do
    c ← read_cpu
    r ← read_rec g_rec
    write_rec g_rec
        (record r { last_run_info = record { esr = esr; hpfar = c.hpfar_el2; far = c.far_el2 } })

  unfoldable pub handle_realm_exit : ℕ → RecExit → ℕ → Command (Bool × RecExit)
  unfolding handle_exception_sync handle_exception_irq_lel handle_exception_serror_lel keep_run_info
  handle_realm_exit g_rec rec_exit exception =
      if exception == arm_exception_sync_lel
      then (do
        (ret, e) ← handle_exception_sync g_rec (record rec_exit { exit_reason = rmi_exit_sync })
        c ← read_cpu
        (if not ret then keep_run_info g_rec c.esr_el2 else pure tt)
        pure (ret, e))
      else if exception == arm_exception_irq_lel
      then pure (handle_exception_irq_lel rec_exit)
      else if exception == arm_exception_fiq_lel
      then pure (false, record rec_exit { exit_reason = rmi_exit_fiq })
      else if exception == arm_exception_serror_lel
      then (do
        c ← read_cpu
        (ret, e) ←
            handle_exception_serror_lel g_rec (record rec_exit { exit_reason = rmi_exit_serror })
        (if not ret then keep_run_info g_rec c.esr_el2 else pure tt)
        pure (ret, e))
      else pure (false, rec_exit)
