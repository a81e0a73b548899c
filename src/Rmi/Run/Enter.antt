-- ===== src/Rmi/Run/Enter.antt =====
-- runtime/rmi/run.c: `smc_rec_enter`.
pub mod NotRun
use acai_rmm.Common.{
  ℕ, ◌^◌, Bool, true, false, not, Option, none, some, ◌==◌, ◌!=◌, if◌then◌else◌, bit_and, bit_or,
}
use acai_rmm.State.{
  Platform, ns, rec, same_state, realm_state_new, realm_state_active, realm_state_system_off,
  Command, fault, assertion, pure, ◌>>=◌, ◌>>◌, read_granule, read_rd, read_rec, write_rec,
}
use acai_rmm.Status.{rmi_success, rmi_error_input, rmi_error_realm, rmi_error_rec, pack_return_code}
use acai_rmm.Gic.{GicExit, gic_copy_state_from_ns, gic_copy_state_to_ns, gic_validate_state}
use acai_rmm.Granule.Ops.{granule_unlock, atomic_granule_get, atomic_granule_put_release}
use acai_rmm.Granule.Find.{Found, found, status, find_granule, find_lock_unused_granule}
use acai_rmm.Rsi.Interface.{RecExit}
use acai_rmm.Core.Machine.{Machine}
use acai_rmm.Core.Timers.{TimerExit}
use acai_rmm.Core.Run.Loop.{rec_run_loop}
use acai_rmm.Rmi.Run.Completion.{
  RecEntry, rec_entry_flag_trap_wfi, rec_entry_flag_trap_wfe, reset_last_run_info,
  complete_mmio_emulation, complete_set_ripas, complete_sea_insertion, complete_sysreg_emulation,
  complete_hvc_exit, complete_host_call,
}

-- `struct rmi_rec_exit`, by the parts that fill it.
pub record RunExit : Type 0 where
  pub exit : RecExit
  pub timers : TimerExit
  pub gic : GicExit

-- The structure after `memset`.
abbrev pub zero_exit : RunExit
zero_exit = record {
  exit = record {
    exit_reason = 0;
    esr = 0;
    far = 0;
    hpfar = 0;
    gprs = λ _. 0;
    ripas_base = 0;
    ripas_size = 0;
    ripas_value = 0;
    imm = 0;
  };
  timers = record { cntv_ctl = 0; cntv_cval = 0; cntp_ctl = 0; cntp_cval = 0 };
  gic = record { gicv3_lrs = λ _. 0; gicv3_misr = 0; gicv3_vmcr = 0; gicv3_hcr = 0 };
}

-- What a handler returns, and what it wrote to the page of the run.
pub record Entered : Type 0 where
  pub ret : ℕ
  pub written : Option RunExit

abbrev pub entry_refused : ℕ → Entered
entry_refused ret = record { ret = ret; written = none }

-- `HCR_TWI` is bit 13, `HCR_TWE` bit 14.
unfoldable pub entry_hcr : ℕ → ℕ → ℕ
entry_hcr flags hcr =
    let hcr' = if bit_and flags rec_entry_flag_trap_wfi != 0 then bit_or hcr (2 ^ 13) else hcr in
    if bit_and flags rec_entry_flag_trap_wfe != 0 then bit_or hcr' (2 ^ 14) else hcr'

unfoldable pub set_entry_hcr : ℕ → ℕ → Command (Unit {0})
unfolding entry_hcr
set_entry_hcr g_rec flags = do
  r ← read_rec g_rec
  write_rec g_rec (record r {
    sysregs = record r.sysregs { hcr_el2 = entry_hcr flags r.common_sysregs.hcr_el2 };
  })

-- `rounds` bounds the loop that runs the realm; `entries` is what the host's page of a granule holds
-- where it can be read, and `writable` whether it can be written.
module _ (plat : Platform) (m : Machine) (rounds : ℕ) (entries : ℕ → Option RecEntry)
    (writable : ℕ → Bool) where
  -- The state of the realm, read with no lock held: the error, or none.
  unfoldable pub realm_error : ℕ → Command (Option ℕ)
  realm_error realm_state =
      if realm_state == realm_state_new
      then (do e ← pack_return_code rmi_error_realm 0; pure (some e))
      else if realm_state == realm_state_active
      then pure none
      else if realm_state == realm_state_system_off
      then (do e ← pack_return_code rmi_error_realm 1; pure (some e))
      else (λ s. fault assertion)

  -- After the checks: the realm runs.
  unfoldable pub run_context : ℕ → RecEntry → RecExit → Command RunExit
  unfolding set_entry_hcr
  run_context g_rec entry e = do
    reset_last_run_info g_rec
    set_entry_hcr g_rec entry.flags
    (e', timers) ← rec_run_loop plat m rounds g_rec e
    r ← read_rec g_rec
    pure (record {
      exit = e';
      timers = timers;
      gic = gic_copy_state_to_ns m.features r.sysregs.gicstate zero_exit.gic;
    })

  -- The interrupts and the completions; `none` is RMI_ERROR_REC.
  unfoldable pub complete_and_run : ℕ → RecEntry → Command (Option RunExit)
  unfolding run_context
  complete_and_run g_rec entry = do
    r ← read_rec g_rec
    let gicstate =
        gic_copy_state_from_ns m.features r.sysregs.gicstate entry.gicv3_lrs entry.gicv3_hcr
    write_rec g_rec (record r { sysregs = record r.sysregs { gicstate = gicstate } })
    if not (gic_validate_state m.features gicstate) then pure none else (do
      emulated ← complete_mmio_emulation g_rec entry
      if not emulated then pure none else (do
        inserted ← complete_sea_insertion g_rec entry
        if not inserted then pure none else (do
          complete_set_ripas g_rec
          complete_sysreg_emulation g_rec entry
          complete_hvc_exit g_rec entry
          (called, e) ← complete_host_call plat m.stack.host_call_walk g_rec entry zero_exit.exit
          if not called
              then pure (some (record zero_exit { exit = e }))
              else (do x ← run_context g_rec entry e; pure (some x)))))

  -- The code and the exit: the exit is there with RMI_SUCCESS alone.
  unfoldable pub enter_context : ℕ → RecEntry → Command (ℕ × Option RunExit)
  unfolding realm_error complete_and_run
  enter_context g_rec entry = do
    r ← read_rec g_rec
    d ← read_rd r.realm_info.g_rd
    error ← realm_error d.state
    elim error [
      | some ret ↦ pure (ret, none)
      | none ↦
          if not r.runnable
          then pure (rmi_error_rec, none)
          else if r.psci_pending
          then pure (rmi_error_rec, none)
          else (do
            x ← complete_and_run g_rec entry
            elim x [ none ↦ pure (rmi_error_rec, none) | some e ↦ pure (rmi_success, some e) ])
    ]

  -- `out_unmap_buffers`, where the exit is copied to the host.
  unfoldable pub copy_exit : ℕ → ℕ × Option RunExit → Entered
  copy_exit g_run (ret, none) = entry_refused ret
  copy_exit g_run (ret, some e) =
      if writable g_run
      then record { ret = ret; written = some e }
      else entry_refused rmi_error_input

  unfoldable pub enter_locked : ℕ → Found → Command Entered
  unfolding enter_context copy_exit
  enter_locked g_run (status e) = pure (entry_refused e)
  enter_locked g_run (found g_rec) = do
    atomic_granule_get g_rec
    granule_unlock g_rec
    elim (entries g_run) [
      | none ↦ (do atomic_granule_put_release g_rec; pure (entry_refused rmi_error_input))
      | some entry ↦ (do
        result ← enter_context g_rec entry
        let entered = copy_exit g_run result
        atomic_granule_put_release g_rec
        pure entered)
    ]

  unfoldable pub enter_found : ℕ → Option ℕ → Command Entered
  unfolding enter_locked
  enter_found rec_addr none = pure (entry_refused rmi_error_input)
  enter_found rec_addr (some g_run) = do
    x ← read_granule g_run
    if not (same_state x.state ns)
        then pure (entry_refused rmi_error_input)
        else (do g_rec ← find_lock_unused_granule plat rec_addr rec; enter_locked g_run g_rec)

  unfoldable pub smc_rec_enter : ℕ → ℕ → Command Entered
  unfolding enter_found
  smc_rec_enter rec_addr rec_run_addr = enter_found rec_addr (find_granule plat rec_run_addr)
