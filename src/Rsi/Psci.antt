-- ===== src/Rsi/Psci.antt =====
-- runtime/rsi/psci.c: the power state of the execution contexts of a realm.
mod Codes
pub mod Index
pub mod Completion
use acai_rmm.Common.{
  ℕ, ◌+◌, ◌-◌, ◌*◌, ◌/◌, ◌%◌, ◌^◌, Bool, true, false, not, ◌||◌, leb, ◌==◌, ◌!=◌, if◌then◌else◌,
  bit_and, bit_or, update,
}
use acai_rmm.State.{
  Rec, rd, realm_state_system_off, Command, pure, ◌>>=◌, ◌>>◌, assert, read_granule, read_rd,
  write_rd, read_rec, write_rec,
}
use acai_rmm.Status.{rmi_success, rmi_error_input}
use acai_rmm.Granule.Ops.{granule_lock, granule_unlock}
use acai_rmm.Rsi.Interface.{addr_in_rec_par}
pub use Codes.*

-- `struct psci_result`: `smc_x0` is register 0 of `smc_res`, `smc_rest` the other three.
pub record PsciResult : Type 0 where
  pub forward_psci_call : Bool
  pub x1 : ℕ
  pub smc_x0 : ℕ
  pub smc_rest : ℕ → ℕ

abbrev pub psci_return : ℕ → PsciResult
psci_return x0 = record { forward_psci_call = false; x1 = 0; smc_x0 = x0; smc_rest = λ _. 0 }

abbrev pub psci_forward : ℕ → PsciResult
psci_forward x1 = record {
  forward_psci_call = true;
  x1 = x1;
  smc_x0 = psci_return_success;
  smc_rest = λ _. 0;
}

-- Of lib/realm/include/rec.h: the fields that the two macros `MASK` and `MPIDR_EL2_AFF` select.
abbrev pub mpidr_mask : ℕ
mpidr_mask = 0xff00ffff0f

unfoldable pub mpidr_is_valid : ℕ → Bool
mpidr_is_valid mpidr = bit_and mpidr (2 ^ 64 - 1 - mpidr_mask) == 0

unfoldable pub mpidr_to_rec_idx : ℕ → ℕ
mpidr_to_rec_idx mpidr =
    bit_and mpidr 0xf
    + bit_and mpidr 0xff00 / 2 ^ 4
    + bit_and mpidr 0xff0000 / 2 ^ 4
    + bit_and mpidr 0xff00000000 / 2 ^ 12

unfoldable pub psci_version : PsciResult
psci_version = psci_return (bit_or (1 * 2 ^ 16) 1)

unfoldable pub psci_cpu_suspend : PsciResult
psci_cpu_suspend = psci_forward 0

unfoldable pub psci_cpu_off : ℕ → Command PsciResult
psci_cpu_off g_rec = do
  r ← read_rec g_rec
  write_rec g_rec (record r { runnable = false })
  pure (psci_forward 0)

unfoldable pub psci_reset_rec : Rec → ℕ → Rec
psci_reset_rec r caller_sctlr_el1 = record r {
  pstate = reset_pstate;
  sysregs = record r.sysregs {
    sctlr_el1 = bit_or sctlr_el1_flags (bit_and caller_sctlr_el1 sctlr_el1_ee);
  };
}

unfoldable pub rd_map_read_rec_count : ℕ → Command ℕ
rd_map_read_rec_count g_rd = do d ← read_rd g_rd; pure d.rec_count

-- The checks of the target that two calls share, and the request to the host.
unfoldable pub request_target : ℕ → Rec → ℕ → ℕ → Command PsciResult
unfolding mpidr_to_rec_idx rd_map_read_rec_count
request_target g_rec r target on_itself = do
  rec_count ← rd_map_read_rec_count r.realm_info.g_rd
  if leb rec_count (mpidr_to_rec_idx target)
      then pure (psci_return psci_return_invalid_params)
      else if mpidr_to_rec_idx target == r.rec_idx
      then pure (psci_return on_itself)
      else (do write_rec g_rec (record r { psci_pending = true }); pure (psci_forward target))

unfoldable pub psci_cpu_on : ℕ → ℕ → ℕ → Command PsciResult
unfolding request_target
psci_cpu_on g_rec target_cpu entry_point_address = do
  r ← read_rec g_rec
  if not (addr_in_rec_par r entry_point_address)
      then pure (psci_return psci_return_invalid_address)
      else request_target g_rec r target_cpu psci_return_already_on

unfoldable pub psci_affinity_info : ℕ → ℕ → ℕ → Command PsciResult
unfolding request_target
psci_affinity_info g_rec target_affinity lowest_affinity_level = do
  r ← read_rec g_rec
  if lowest_affinity_level != 0
      then pure (psci_return psci_return_invalid_params)
      else request_target g_rec r target_affinity psci_affinity_info_on

unfoldable pub system_off_reboot : ℕ → Command (Unit {0})
system_off_reboot g_rec = do
  r ← read_rec g_rec
  granule_lock r.realm_info.g_rd rd
  d ← read_rd r.realm_info.g_rd
  write_rd r.realm_info.g_rd (record d { state = realm_state_system_off })
  granule_unlock r.realm_info.g_rd

unfoldable pub psci_system_off : ℕ → Command PsciResult
unfolding system_off_reboot
psci_system_off g_rec = do system_off_reboot g_rec; pure (psci_forward 0)

unfoldable pub psci_system_reset : ℕ → Command PsciResult
unfolding system_off_reboot
psci_system_reset g_rec = do system_off_reboot g_rec; pure (psci_forward 0)

unfoldable pub psci_features : ℕ → PsciResult
psci_features func_id =
    if func_id == smc32_psci_cpu_suspend
      || func_id == smc64_psci_cpu_suspend
      || func_id == smc32_psci_cpu_off
      || func_id == smc32_psci_cpu_on
      || func_id == smc64_psci_cpu_on
      || func_id == smc32_psci_affinity_info
      || func_id == smc64_psci_affinity_info
      || func_id == smc32_psci_system_off
      || func_id == smc32_psci_system_reset
      || func_id == smc32_psci_features
      || func_id == smccc_version
    then psci_return 0
    else psci_return psci_return_not_supported

-- The switch over the identifier; a 32-bit call uses the low halves of its arguments. The default
-- case sets two members of `result`, the variable of the source, which is not initialised.
unfoldable pub psci_rsi : PsciResult → ℕ → ℕ → ℕ → ℕ → ℕ → Command PsciResult
unfolding psci_version psci_cpu_suspend psci_cpu_off psci_cpu_on psci_affinity_info psci_system_off
    psci_system_reset psci_features
psci_rsi result g_rec function_id arg0 arg1 arg2 =
    if function_id == smc32_psci_version
    then pure psci_version
    else if function_id == smc32_psci_cpu_suspend || function_id == smc64_psci_cpu_suspend
    then pure psci_cpu_suspend
    else if function_id == smc32_psci_cpu_off
    then psci_cpu_off g_rec
    else if function_id == smc32_psci_cpu_on
    then psci_cpu_on g_rec (arg0 % 2 ^ 32) (arg1 % 2 ^ 32)
    else if function_id == smc64_psci_cpu_on
    then psci_cpu_on g_rec arg0 arg1
    else if function_id == smc32_psci_affinity_info
    then psci_affinity_info g_rec (arg0 % 2 ^ 32) (arg1 % 2 ^ 32)
    else if function_id == smc64_psci_affinity_info
    then psci_affinity_info g_rec arg0 arg1
    else if function_id == smc32_psci_system_off
    then psci_system_off g_rec
    else if function_id == smc32_psci_system_reset
    then psci_system_reset g_rec
    else if function_id == smc32_psci_features
    then pure (psci_features (arg0 % 2 ^ 32))
    else pure (record result { forward_psci_call = false; smc_x0 = psci_return_not_supported })

-- The context is running or may run.
unfoldable pub is_on : Rec → Command Bool
is_on target_rec = do
  x ← read_granule target_rec.g_rec
  pure (x.refcount != 0 || target_rec.runnable)

unfoldable pub complete_psci_cpu_on : ℕ → ℕ → ℕ → Command ℕ
unfolding is_on psci_reset_rec
complete_psci_cpu_on g_target_rec entry_point_address caller_sctlr_el1 = do
  target_rec ← read_rec g_target_rec
  on ← is_on target_rec
  if on then pure psci_return_already_on else (do
    write_rec g_target_rec (record (psci_reset_rec target_rec caller_sctlr_el1) {
      pc = entry_point_address;
      runnable = true;
    })
    pure psci_return_success)

unfoldable pub complete_psci_affinity_info : ℕ → Command ℕ
unfolding is_on
complete_psci_affinity_info g_target_rec = do
  target_rec ← read_rec g_target_rec
  on ← is_on target_rec
  pure (if on then psci_affinity_info_on else psci_affinity_info_off)

-- The switch over the call that is pending; the identifier is all of the register.
unfoldable pub complete_call : Rec → ℕ → Command ℕ
unfolding complete_psci_cpu_on complete_psci_affinity_info
complete_call calling_rec g_target_rec =
    if calling_rec.regs 0 == smc32_psci_cpu_on || calling_rec.regs 0 == smc64_psci_cpu_on
    then complete_psci_cpu_on g_target_rec (calling_rec.regs 2) calling_rec.sysregs.sctlr_el1
    else if calling_rec.regs 0 == smc32_psci_affinity_info
        || calling_rec.regs 0 == smc64_psci_affinity_info
    then complete_psci_affinity_info g_target_rec
    else (assert false >> pure psci_return_not_supported)

-- The four registers that the realm reads when it runs again.
abbrev pub result_regs : (ℕ → ℕ) → ℕ → ℕ → ℕ
result_regs regs ret = update (update (update (update regs 0 ret) 1 0) 2 0) 3 0

unfoldable pub psci_complete_request : ℕ → ℕ → Command ℕ
unfolding complete_call
psci_complete_request g_calling_rec g_target_rec = do
  calling_rec ← read_rec g_calling_rec
  target_rec ← read_rec g_target_rec
  if not calling_rec.psci_pending
      then pure rmi_error_input
      else if calling_rec.realm_info.g_rd != target_rec.realm_info.g_rd
      then pure rmi_error_input
      else if mpidr_to_rec_idx (calling_rec.regs 1) != target_rec.rec_idx
      then pure rmi_error_input
      else (do
        ret ← complete_call calling_rec g_target_rec
        caller ← read_rec g_calling_rec
        write_rec g_calling_rec
            (record caller { regs = result_regs caller.regs ret; psci_pending = false })
        pure rmi_success)
