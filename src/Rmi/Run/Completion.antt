-- ===== src/Rmi/Run/Completion.antt =====
-- runtime/rmi/run.c: what the host answers to the last exit takes effect.
pub mod Protected
pub mod Emulated
use acai_rmm.Common.{
  ℕ, ◌+◌, ◌-◌, ◌*◌, ◌%◌, ◌^◌, Bool, true, false, not, ◌&&◌, ◌||◌, ltb, ◌==◌, ◌!=◌, if◌then◌else◌,
  bit_and, update,
}
use acai_rmm.State.{Platform, Rec, Command, pure, ◌>>=◌, ◌>>◌, read_rec, write_rec}
use acai_rmm.Rsi.Interface.{RecExit, S2WalkResult, addr_in_rec_par, rsi_success}
use acai_rmm.Rsi.HostCall.{complete_rsi_host_call}
use acai_rmm.Core.Esr.{
  esr_srt, esr_is_write, esr_sign_extend, esr_sixty_four, access_len, access_mask, esr_sysreg_rt,
  esr_el2_sysreg_is_write, fault_ipa, esr_el2_ec_mask, esr_el2_ec_data_abort, esr_el2_ec_sysreg,
  esr_el2_ec_hvc, esr_el2_abort_isv_bit, esr_el2_abort_fsc_sea,
}
use acai_rmm.Core.Inject.{inject_sync_idabort_rec}
use acai_rmm.Core.Exit.Aborts.{emulate_stage2_data_abort}

-- The members of `struct rmi_rec_entry`.
pub record RecEntry : Type 0 where
  pub flags : ℕ
  pub gprs : ℕ → ℕ
  pub gicv3_hcr : ℕ
  pub gicv3_lrs : ℕ → ℕ

abbrev pub rec_entry_flag_emul_mmio : ℕ
rec_entry_flag_emul_mmio = 1

abbrev pub rec_entry_flag_inject_sea : ℕ
rec_entry_flag_inject_sea = 2

abbrev pub rec_entry_flag_trap_wfi : ℕ
rec_entry_flag_trap_wfi = 4

abbrev pub rec_entry_flag_trap_wfe : ℕ
rec_entry_flag_trap_wfe = 8

unfoldable pub reset_last_run_info : ℕ → Command (Unit {0})
reset_last_run_info g_rec = do
  r ← read_rec g_rec
  write_rec g_rec (record r { last_run_info = record r.last_run_info { esr = 0 } })

-- `(val ^ mask) - mask`, for a value of `bits` bits whose top bit is `mask`, in 64 bits.
unfoldable pub sign_extended : ℕ → ℕ → ℕ
sign_extended bits val =
    let flipped = if ltb val (2 ^ (bits - 1)) then val + 2 ^ (bits - 1) else val - 2 ^ (bits - 1) in
    (flipped + 2 ^ 64 - 2 ^ (bits - 1)) % 2 ^ 64

-- The value that a load is given.
unfoldable pub mmio_value : ℕ → ℕ → Command ℕ
unfolding sign_extended
mmio_value esr gpr = do
  m ← access_mask esr
  let val = bit_and gpr m
  if esr_sign_extend esr
      then (do
        len ← access_len esr
        let val' = sign_extended (len * 8) val
        pure (if not (esr_sixty_four esr) then bit_and val' (1 * 2 ^ 32 - 1) else val'))
      else pure val

unfoldable pub complete_mmio_emulation : ℕ → RecEntry → Command Bool
unfolding mmio_value
complete_mmio_emulation g_rec entry = do
  r ← read_rec g_rec
  let esr = r.last_run_info.esr
  let rt = esr_srt esr
  if bit_and entry.flags rec_entry_flag_emul_mmio == 0
      then pure true
      else if bit_and esr esr_el2_ec_mask != esr_el2_ec_data_abort
          || bit_and esr esr_el2_abort_isv_bit == 0
      then pure false
      else (do
        regs ←
            (if not (esr_is_write esr) && rt != 31
              then (do val ← mmio_value esr (entry.gprs 0); pure (update r.regs rt val))
              else pure r.regs)
        write_rec g_rec (record r { regs = regs; pc = (r.pc + 4) % 2 ^ 64 })
        pure true)

unfoldable pub complete_set_ripas : ℕ → Command (Unit {0})
complete_set_ripas g_rec = do
  r ← read_rec g_rec
  if r.set_ripas.start != r.set_ripas.end
      then write_rec g_rec (record r {
        regs = update (update r.regs 0 rsi_success) 1 r.set_ripas.addr;
        set_ripas = record r.set_ripas { start = 0; end = 0 };
      })
      else pure tt

unfoldable pub complete_sea_insertion : ℕ → RecEntry → Command Bool
complete_sea_insertion g_rec entry = do
  r ← read_rec g_rec
  let esr = r.last_run_info.esr
  if bit_and entry.flags rec_entry_flag_inject_sea == 0
      then pure true
      else if bit_and esr esr_el2_ec_mask != esr_el2_ec_data_abort
      then pure false
      else if addr_in_rec_par r (fault_ipa r.last_run_info.hpfar)
      then pure false
      else (do inject_sync_idabort_rec g_rec esr_el2_abort_fsc_sea; pure true)

unfoldable pub complete_sysreg_emulation : ℕ → RecEntry → Command (Unit {0})
complete_sysreg_emulation g_rec entry = do
  r ← read_rec g_rec
  let esr = r.last_run_info.esr
  let rt = esr_sysreg_rt esr
  if bit_and esr esr_el2_ec_mask != esr_el2_ec_sysreg
      then pure tt
      else if esr_el2_sysreg_is_write esr
      then pure tt
      else if rt != 31
      then write_rec g_rec (record r { regs = update r.regs rt (entry.gprs 0) })
      else pure tt

-- `REC_EXIT_NR_GPRS` is 31.
unfoldable pub complete_hvc_exit : ℕ → RecEntry → Command (Unit {0})
complete_hvc_exit g_rec entry = do
  r ← read_rec g_rec
  if bit_and r.last_run_info.esr esr_el2_ec_mask != esr_el2_ec_hvc
      then pure tt
      else write_rec g_rec (record r { regs = λ i. if ltb i 31 then entry.gprs i else r.regs i })

-- Whether the context goes on, and the exit where it does not. The walk is a variable of the source
-- that is not initialised.
unfoldable pub complete_host_call :
    Platform → S2WalkResult → ℕ → RecEntry → RecExit → Command (Bool × RecExit)
complete_host_call plat walk g_rec entry rec_exit = do
  r ← read_rec g_rec
  if not r.host_call then pure (true, rec_exit) else (do
    walk_result ← complete_rsi_host_call plat walk g_rec entry.gprs
    if walk_result.abort
        then (do
          e ← emulate_stage2_data_abort g_rec rec_exit walk_result.rtt_level
          pure (false, e))
        else (do
          r' ← read_rec g_rec
          write_rec g_rec (record r' { host_call = false })
          pure (true, rec_exit)))
