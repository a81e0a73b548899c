-- ===== src/Core/Exit/Services.antt =====
-- runtime/core/exit.c: a realm asks for a service by an SMC.
pub mod Refused
use acai_rmm.Common.{
  ℕ, zero, suc, ◌+◌, ◌-◌, ◌*◌, ◌%◌, ◌^◌, Bool, true, false, not, ◌&&◌, ◌||◌, leb, ltb, ◌==◌, ◌!=◌,
  if◌then◌else◌, update,
}
use acai_rmm.State.{
  Platform, Rec, request_device_ownership, Command, done, fault, deadlock, pure, ◌>>=◌, ◌>>◌,
  read_rec, write_rec, emit,
}
use acai_rmm.Rsi.Interface.{
  RecExit, RsiWalkResult, RsiWalkSmcResult, rsi_success, rsi_error_input, rmi_exit_psci,
}
use acai_rmm.Rsi.Psci.{PsciResult, psci_rsi, smccc_version}
use acai_rmm.Rsi.Measurements.{handle_rsi_read_measurement, handle_rsi_extend_measurement}
use acai_rmm.Rsi.Attest.{
  AttestResult, handle_rsi_attest_token_init, handle_rsi_attest_token_continue,
}
use acai_rmm.Rsi.Config.{handle_rsi_realm_config}
use acai_rmm.Rsi.Memory.{handle_rsi_ipa_state_set, handle_rsi_ipa_state_get}
use acai_rmm.Rsi.HostCall.{HostCallResult, to_exit, from_entry, handle_rsi_host_call}
use acai_rmm.Rsi.DevMem.{handle_rsi_dev_mem}
use acai_rmm.Core.Machine.{Machine}
use acai_rmm.Core.Registers.{read_cpu, write_elr_el2, write_reg}
use acai_rmm.Core.Smc.{
  smc_unknown, smccc_version_number, is_smc32_psci_fid, is_smc64_psci_fid, is_smc64_rsi_fid,
  smc_rsi_abi_version, smc_rsi_measurement_read, smc_rsi_measurement_extend,
  smc_rsi_attest_token_init, smc_rsi_attest_token_continue, smc_rsi_realm_config,
  smc_rsi_ipa_state_set, smc_rsi_ipa_state_get, smc_rsi_host_call, smc_rsi_dev_mem,
  smc_request_device_ownership, smc_trigger_testengine,
}
use acai_rmm.Core.Exit.Aborts.{emulate_stage2_data_abort}

abbrev pub rmi_exit_irq : ℕ
rmi_exit_irq = 1

abbrev pub rmi_exit_host_call : ℕ
rmi_exit_host_call = 5

abbrev pub rmi_exit_trigger_testengine : ℕ
rmi_exit_trigger_testengine = 0xc

abbrev pub rsi_abi_version : ℕ
rsi_abi_version = 12 * 2 ^ 16 + 0

unfoldable pub system_rsi_abi_version : ℕ
system_rsi_abi_version = rsi_abi_version

unfoldable pub advance_pc : Command (Unit {0})
advance_pc = do c ← read_cpu; write_elr_el2 ((c.elr_el2 + 4) % 2 ^ 64)

unfoldable pub return_result_to_realm : ℕ → (ℕ → ℕ) → Command (Unit {0})
return_result_to_realm g_rec x = do
  r ← read_rec g_rec
  write_rec g_rec (record r { regs = λ i. if ltb i 4 then x i else r.regs i })

-- The four registers of a result of which two are used.
abbrev four_regs : ℕ → ℕ → ℕ → ℕ
four_regs x0 x1 i = if i == 0 then x0 else if i == 1 then x1 else 0

-- The result of a service whose walk may have failed.
unfoldable pub walk_smc_result : ℕ → RecExit → RsiWalkSmcResult → Command (Bool × RecExit)
unfolding return_result_to_realm
walk_smc_result g_rec rec_exit res =
    if res.walk_result.abort
    then (do
      e ← emulate_stage2_data_abort g_rec rec_exit res.walk_result.rtt_level
      pure (false, e))
    else (do return_result_to_realm g_rec (four_regs res.x0 res.x1); pure (true, rec_exit))

-- The value of register 0 for a service that always returns to the realm.
abbrev answer : ℕ → RecExit → ℕ → Command (Bool × RecExit)
answer g_rec rec_exit x0 = do write_reg g_rec 0 x0; pure (true, rec_exit)

-- `given` is the variable of `psci_rsi`.
unfoldable pub psci_call : PsciResult → ℕ → RecExit → ℕ → Command (Bool × RecExit)
unfolding return_result_to_realm advance_pc
psci_call given g_rec rec_exit function_id = do
  caller ← read_rec g_rec
  res ← psci_rsi given g_rec function_id (caller.regs 1) (caller.regs 2) (caller.regs 3)
  r ← read_rec g_rec
  (if not r.psci_pending
      then return_result_to_realm g_rec (λ i. if i == 0 then res.smc_x0 else res.smc_rest i)
      else pure tt)
  if res.forward_psci_call
      then (do
        advance_pc
        pure (
          false,
          record rec_exit {
            exit_reason = rmi_exit_psci;
            gprs = λ i.
                if i == 0
                then function_id
                else if i == 1
                then res.x1
                else if ltb i 31
                then 0
                else rec_exit.gprs i;
          },
        ))
      else pure (true, rec_exit)

unfoldable pub host_called : ℕ → RecExit → HostCallResult → Command (Bool × RecExit)
unfolding advance_pc
host_called g_rec rec_exit res =
    if res.walk_result.abort
    then (do
      e ← emulate_stage2_data_abort g_rec rec_exit res.walk_result.rtt_level
      pure (false, e))
    else (do
      write_reg g_rec 0 res.smc_result
      if res.smc_result == rsi_success
          then (do
            advance_pc
            r ← read_rec g_rec
            write_rec g_rec (record r { host_call = true })
            pure (false, record rec_exit { exit_reason = rmi_exit_host_call }))
          else pure (true, rec_exit))

abbrev exit_of : HostCallResult → RecExit → RecExit
exit_of res e = elim res.side [ to_exit e' ↦ e' | from_entry gprs ↦ e ]

unfoldable pub trigger_testengine : ℕ → RecExit → Command (Bool × RecExit)
unfolding advance_pc
trigger_testengine g_rec rec_exit = do
  r ← read_rec g_rec
  write_reg g_rec 0 rsi_success
  advance_pc
  pure (
    false,
    record rec_exit {
      exit_reason = rmi_exit_trigger_testengine;
      gprs = update (update (update rec_exit.gprs 1 (r.regs 1)) 2 (r.regs 2)) 3 (r.regs 3);
    },
  )

module _ (plat : Platform) (m : Machine) where
  -- The end of the loop: an interrupt, a failed walk, or an answer.
  unfoldable pub token_ends : ℕ → RecExit → AttestResult → Command (Bool × RecExit)
  unfolding return_result_to_realm
  token_ends g_rec rec_exit res =
      if res.incomplete
      then pure (false, record rec_exit { exit_reason = rmi_exit_irq })
      else if res.walk_result.abort
      then (do
        e ← emulate_stage2_data_abort g_rec rec_exit res.walk_result.rtt_level
        pure (false, e))
      else (do return_result_to_realm g_rec res.smc_res; pure (true, rec_exit))

  -- The loop, from its `n`-th round on.
  unfoldable pub attest_token_continue :
      ℕ → ℕ → ℕ → RecExit → AttestResult → Command (Bool × RecExit)
  unfolding token_ends
  attest_token_continue zero n g_rec rec_exit res = λ s. fault deadlock
  attest_token_continue (suc rounds) n g_rec rec_exit res =
      handle_rsi_attest_token_continue plat m.library g_rec res >>= λ next s.
      elim (next.incomplete && m.isr_el1 s n == 0) [
        | true ↦ attest_token_continue rounds (suc n) g_rec rec_exit next s
        | false ↦ token_ends g_rec rec_exit next s
      ]

  unfoldable pub ipa_state_set : ℕ → RecExit → Command (Bool × RecExit)
  unfolding advance_pc
  ipa_state_set g_rec rec_exit = do
    (refused, e) ← handle_rsi_ipa_state_set g_rec rec_exit
    if refused then answer g_rec e rsi_error_input else (do advance_pc; pure (false, e))

  -- The switch over the identifiers of the range of RSI.
  unfoldable pub rsi_call : ℕ → RecExit → ℕ → Command (Bool × RecExit)
  unfolding system_rsi_abi_version walk_smc_result host_called attest_token_continue ipa_state_set
      trigger_testengine
  rsi_call g_rec rec_exit function_id =
      if function_id == smc_rsi_abi_version
      then answer g_rec rec_exit system_rsi_abi_version
      else if function_id == smc_rsi_attest_token_init
      then (do x0 ← handle_rsi_attest_token_init plat m.library g_rec; answer g_rec rec_exit x0)
      else if function_id == smc_rsi_attest_token_continue
      then attest_token_continue m.patience 0 g_rec rec_exit m.stack.attest_result
      else if function_id == smc_rsi_measurement_read
      then (do x0 ← handle_rsi_read_measurement g_rec; answer g_rec rec_exit x0)
      else if function_id == smc_rsi_measurement_extend
      then (do x0 ← handle_rsi_extend_measurement plat m.memory g_rec; answer g_rec rec_exit x0)
      else if function_id == smc_rsi_realm_config
      then (do
        res ← handle_rsi_realm_config plat m.stack.config_walk g_rec
        walk_smc_result g_rec rec_exit res)
      else if function_id == smc_rsi_ipa_state_set
      then ipa_state_set g_rec rec_exit
      else if function_id == smc_rsi_ipa_state_get
      then (do res ← handle_rsi_ipa_state_get plat g_rec; walk_smc_result g_rec rec_exit res)
      else if function_id == smc_rsi_host_call
      then (do
        res ← handle_rsi_host_call plat m.stack.host_call_walk g_rec rec_exit
        host_called g_rec (exit_of res rec_exit) res)
      else if function_id == smc_rsi_dev_mem
      then (do
        res ← handle_rsi_dev_mem plat m.stack.dev_mem_walk m.stack.dev_mem g_rec
        answer g_rec rec_exit res.smc_result)
      else if function_id == smc_request_device_ownership
      then (do
        r ← read_rec g_rec
        let call = request_device_ownership (r.regs 1) r.rec_idx
        emit call
        answer g_rec rec_exit (plat.monitor_call call))
      else if function_id == smc_trigger_testengine
      then trigger_testengine g_rec rec_exit
      else answer g_rec rec_exit smc_unknown

  -- `function_id` is 32 bits wide. The case of SMCCC_VERSION stands first in the switch.
  unfoldable pub handle_realm_rsi : ℕ → RecExit → Command (Bool × RecExit)
  unfolding psci_call rsi_call
  handle_realm_rsi g_rec rec_exit = do
    r ← read_rec g_rec
    let function_id = r.regs 0 % 2 ^ 32
    if not (is_smc32_psci_fid function_id)
          && (not (is_smc64_psci_fid function_id) && not (is_smc64_rsi_fid function_id))
        then answer g_rec rec_exit smc_unknown
        else if function_id == smccc_version
        then answer g_rec rec_exit smccc_version_number
        else if is_smc32_psci_fid function_id || is_smc64_psci_fid function_id
        then psci_call m.stack.psci_result g_rec rec_exit function_id
        else rsi_call g_rec rec_exit function_id
