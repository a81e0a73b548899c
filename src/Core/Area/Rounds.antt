-- ===== src/Core/Area/Rounds.antt =====
-- The services, the handlers of an exit and the loop leave the area of the host alone
-- (runtime/core/exit.c, run.c).
use acai_rmm.Common.{ℕ, zero, suc, Bool, true, false, ◌&&◌, ◌==◌}
use acai_rmm.State.{Platform, NsState, pure, ◌>>=◌, ◌>>◌}
use acai_rmm.Rsi.Interface.{RecExit, RsiWalkSmcResult}
use acai_rmm.Rsi.Attest.{AttestResult}
use acai_rmm.Rsi.Psci.{PsciResult}
use acai_rmm.Rsi.HostCall.{HostCallResult}
use acai_rmm.Core.Machine.{Machine}
use acai_rmm.Core.Exit.Aborts.{system_abort}
use acai_rmm.Core.Exit.Services.{
  advance_pc, return_result_to_realm, walk_smc_result, psci_call, host_called, trigger_testengine,
  token_ends, attest_token_continue, ipa_state_set, rsi_call, handle_realm_rsi,
}
use acai_rmm.Core.Exit.Sync.{
  save_ns_vectors, load_vectors, inject_serror, abort_if, handle_exception_serror_lel,
  handle_exception_sync, keep_run_info, handle_realm_exit, handle_exception_irq_lel,
}
use acai_rmm.Core.Run.Switch.{activate_events}
use acai_rmm.Core.Run.Loop.{run_realm, realm_rounds}
use acai_rmm.Core.Area.Keeps.{Area, Holds, Keeps, Keeps-bind, Keeps-test, Keeps-pure, keeps_rules}
use acai_rmm.Core.Area.Services.{
  psci_rsi-Keeps, state_set-Keeps, read_measurement-Keeps, config-Keeps, host_call-Keeps,
  state_get-Keeps, extend_measurement-Keeps,
}
use acai_rmm.Core.Area.Devices.{dev_mem-Keeps, token_init-Keeps, token_continue-Keeps}
use acai_rmm.Core.Area.Exits.{
  undef-Keeps, sysreg-Keeps, timers-Keeps, emulate-Keeps, data_abort-Keeps, instruction_abort-Keeps,
}

advance-Keeps : {a : Area} → Keeps a advance_pc
unfolding advance_pc
advance-Keeps = record { at = λ s h. record { sysregs = h.sysregs; icc_sre = h.icc_sre } }

walk_result-Keeps :
    {a : Area} (g : ℕ) (e : RecExit) (res : RsiWalkSmcResult) → Keeps a (walk_smc_result g e res)
unfolding walk_smc_result return_result_to_realm
walk_result-Keeps g e res = search (keeps_rules, emulate-Keeps) depth 12

psci-Keeps :
    {a : Area} (given : PsciResult) (g : ℕ) (e : RecExit) (f : ℕ) → Keeps a (psci_call given g e f)
unfolding psci_call return_result_to_realm
psci-Keeps given g e f = search (keeps_rules, psci_rsi-Keeps, advance-Keeps) depth 16

host_called-Keeps :
    {a : Area} (g : ℕ) (e : RecExit) (res : HostCallResult) → Keeps a (host_called g e res)
unfolding host_called
host_called-Keeps g e res = search (keeps_rules, emulate-Keeps, advance-Keeps) depth 16

engine-Keeps : {a : Area} (g : ℕ) (e : RecExit) → Keeps a (trigger_testengine g e)
unfolding trigger_testengine
engine-Keeps g e = search (keeps_rules, advance-Keeps) depth 12

abort_if-Keeps : {a : Area} (b : Bool) → Keeps a (abort_if b)
unfolding system_abort
abort_if-Keeps true = search keeps_rules
abort_if-Keeps false = search keeps_rules

serror-Keeps : {a : Area} (g : ℕ) (e : RecExit) → Keeps a (handle_exception_serror_lel g e)
unfolding handle_exception_serror_lel inject_serror system_abort
serror-Keeps g e = search (keeps_rules, abort_if-Keeps) depth 24

vectors-Keeps : {a : Area} → Keeps a save_ns_vectors
unfolding save_ns_vectors
vectors-Keeps = search (keeps_rules, with_vectors) depth 12
  where
    with_vectors : {a : Area} (n : NsState) (v : ℕ) → Holds a n → Holds a (record n { vectors = v })
    with_vectors n v h = record { sysregs = h.sysregs; icc_sre = h.icc_sre }

load-Keeps : {a : Area} (g : ℕ) → Keeps a (load_vectors g)
unfolding load_vectors
load-Keeps g = search (keeps_rules, vectors-Keeps) depth 16

events-Keeps : {a : Area} (g : ℕ) → Keeps a (activate_events g)
unfolding activate_events
events-Keeps g = search keeps_rules depth 12

run_realm-Keeps : {a : Area} (m : Machine) (g : ℕ) → Keeps a (run_realm m g)
unfolding run_realm
run_realm-Keeps m g = record { at = λ s h. record { sysregs = h.sysregs; icc_sre = h.icc_sre } }

module _ (plat : Platform) (m : Machine) where
  token_ends-Keeps :
      {a : Area} (g : ℕ) (e : RecExit) (res : AttestResult) → Keeps a (token_ends plat m g e res)
  unfolding token_ends return_result_to_realm
  token_ends-Keeps g e res = search (keeps_rules, emulate-Keeps) depth 12

  token_rounds-Keeps :
      {a : Area} (rounds n g : ℕ) (e : RecExit) (res : AttestResult)
      → Keeps a (attest_token_continue plat m rounds n g e res)
  unfolding attest_token_continue
  token_rounds-Keeps {a = a} zero n g e res = search keeps_rules
  token_rounds-Keeps {a = a} (suc rounds) n g e res =
      Keeps-bind _ _ (token_continue-Keeps plat m.library g res) (λ next.
        Keeps-test (λ s. next.incomplete && m.isr_el1 s n == 0) _ _
          (token_rounds-Keeps {a = a} rounds (suc n) g e next) (token_ends-Keeps g e next))

  state_set_exit-Keeps : {a : Area} (g : ℕ) (e : RecExit) → Keeps a (ipa_state_set plat m g e)
  unfolding ipa_state_set
  state_set_exit-Keeps g e = search (keeps_rules, state_set-Keeps, advance-Keeps) depth 12

  ruleset service_rules = (
    keeps_rules, walk_result-Keeps, host_called-Keeps, engine-Keeps, token_rounds-Keeps,
    state_set_exit-Keeps, read_measurement-Keeps, config-Keeps, host_call-Keeps, state_get-Keeps,
    extend_measurement-Keeps, dev_mem-Keeps, token_init-Keeps,
  )

  rsi_call-Keeps : {a : Area} (g : ℕ) (e : RecExit) (f : ℕ) → Keeps a (rsi_call plat m g e f)
  unfolding rsi_call
  rsi_call-Keeps g e f = search service_rules depth 32

  rsi-Keeps : {a : Area} (g : ℕ) (e : RecExit) → Keeps a (handle_realm_rsi plat m g e)
  unfolding handle_realm_rsi
  rsi-Keeps g e = search (keeps_rules, psci-Keeps, rsi_call-Keeps) depth 16

  sync-Keeps : {a : Area} (g : ℕ) (e : RecExit) → Keeps a (handle_exception_sync plat m g e)
  unfolding handle_exception_sync
  sync-Keeps g e =
      search
        (
          keeps_rules, rsi-Keeps, advance-Keeps, undef-Keeps, sysreg-Keeps, data_abort-Keeps,
          instruction_abort-Keeps, load-Keeps,
        )
        depth 24

  info-Keeps : {a : Area} (g v : ℕ) → Keeps a (keep_run_info plat m g v)
  unfolding keep_run_info
  info-Keeps g v = search keeps_rules depth 12

  exit-Keeps : {a : Area} (g : ℕ) (e : RecExit) (v : ℕ) → Keeps a (handle_realm_exit plat m g e v)
  unfolding handle_realm_exit handle_exception_irq_lel
  exit-Keeps g e v = search (keeps_rules, sync-Keeps, serror-Keeps, info-Keeps) depth 24

  round-Keeps :
      {a : Area} (g : ℕ) (e : RecExit)
      → Keeps a (do activate_events g; code ← run_realm m g; handle_realm_exit plat m g e code)
  round-Keeps g e = search (keeps_rules, events-Keeps, run_realm-Keeps, exit-Keeps) depth 12

  pub rounds-Keeps : {a : Area} (k g : ℕ) (e : RecExit) → Keeps a (realm_rounds plat m k g e)
  unfolding realm_rounds
  rounds-Keeps {a = a} zero g e = search keeps_rules
  rounds-Keeps {a = a} (suc k) g e = Keeps-bind _ _ (timers-Keeps m m.patience g) (λ pending.
      Keeps-test (λ s. pending) (pure _) _ (Keeps-pure _)
        (Keeps-bind _ _ (round-Keeps g e) (λ r.
          Keeps-test (λ t. r.0) _ (pure r.1) (rounds-Keeps {a = a} k g r.1) (Keeps-pure r.1))))
