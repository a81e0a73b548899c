-- ===== src/Core/Area/Exits.antt =====
-- The exceptions of a realm, its timers and its traps leave the area of the host alone
-- (runtime/core/exit.c, inject_exp.c, sysregs.c, lib/timers).
use acai_rmm.Common.{ℕ, zero, suc, List, [], ◌∷◌, bit_and, ◌==◌}
use acai_rmm.State.{Platform, pure}
use acai_rmm.Rsi.Interface.{RecExit}
use acai_rmm.Core.Machine.{Machine}
use acai_rmm.Core.Esr.{access_mask}
use acai_rmm.Core.Inject.{
  calc_vector_entry, calc_esr_idabort, inject_sync_idabort, realm_inject_undef_abort,
}
use acai_rmm.Core.Sysregs.{
  SysregHandlerFn, id_handler, icc_handler, SysregHandler, handle_id_sysreg_trap,
  handle_icc_el1_sysreg_trap, run_handler, emulate_sysreg_access_ns, get_sysreg_write_value,
  ignore_access, first_handler, handle_sysreg_access_trap,
}
use acai_rmm.Core.Timers.{wait_retired, not_retired, check_pending_timers}
use acai_rmm.Core.Exit.Aborts.{
  system_abort, fixup_aarch32_data_abort, get_dabt_write_value, ipa_is_empty,
  handle_sync_external_abort, emulate_stage2_data_abort, report_emulated, handle_data_abort,
  handle_instruction_abort,
}
use acai_rmm.S2tt.Entry.{s2tte_get_ripas}
use acai_rmm.Core.Area.Keeps.{Area, Keeps, Keeps-if, Keeps-test, Keeps-pure, keeps_rules}
use acai_rmm.Core.Area.Tables.{granule_lock-Keeps, granule_unlock-Keeps, walk-Keeps}

vector-Keeps : {a : Area} (vbar spsr : ℕ) → Keeps a (calc_vector_entry vbar spsr)
unfolding calc_vector_entry
vector-Keeps vbar spsr = search keeps_rules depth 12

esr-Keeps : {a : Area} (e p f : ℕ) → Keeps a (calc_esr_idabort e p f)
unfolding calc_esr_idabort
esr-Keeps e p f = search keeps_rules depth 12

inject-Keeps : {a : Area} (f : ℕ) → Keeps a (inject_sync_idabort f)
unfolding inject_sync_idabort
inject-Keeps f = search (keeps_rules, vector-Keeps, esr-Keeps) depth 12

pub undef-Keeps : {a : Area} → Keeps a realm_inject_undef_abort
unfolding realm_inject_undef_abort
undef-Keeps = search (keeps_rules, vector-Keeps) depth 12

module _ (m : Machine) where
  id-Keeps : {a : Area} (g : ℕ) (e : RecExit) (v : ℕ) → Keeps a (handle_id_sysreg_trap m g e v)
  unfolding handle_id_sysreg_trap
  id-Keeps g e v = search keeps_rules depth 12

  icc-Keeps : {a : Area} (e : RecExit) (v : ℕ) → Keeps a (handle_icc_el1_sysreg_trap e v)
  unfolding handle_icc_el1_sysreg_trap
  icc-Keeps e v = search keeps_rules depth 12

  run_handler-Keeps :
      {a : Area} (fn : SysregHandlerFn) (g : ℕ) (e : RecExit) (v : ℕ)
      → Keeps a (run_handler m fn g e v)
  unfolding run_handler
  run_handler-Keeps id_handler g e v = id-Keeps g e v
  run_handler-Keeps icc_handler g e v = icc-Keeps e v

  access_ns-Keeps :
      {a : Area} (g : ℕ) (e : RecExit) (v : ℕ) → Keeps a (emulate_sysreg_access_ns g e v)
  unfolding emulate_sysreg_access_ns get_sysreg_write_value
  access_ns-Keeps g e v = search keeps_rules depth 12

  ignore-Keeps : {a : Area} (g : ℕ) (e : RecExit) (v : ℕ) → Keeps a (ignore_access g e v)
  unfolding ignore_access
  ignore-Keeps g e v = search keeps_rules depth 12

  first_handler-Keeps :
      {a : Area} (hs : List SysregHandler) (g : ℕ) (e : RecExit) (v : ℕ)
      → Keeps a (first_handler m hs g e v)
  unfolding first_handler
  first_handler-Keeps {a = a} [] g e v = ignore-Keeps g e v
  first_handler-Keeps {a = a} (h ∷ hs) g e v =
      Keeps-if (bit_and v h.esr_mask == h.esr_value) _ _
        (search (keeps_rules, run_handler-Keeps, access_ns-Keeps) depth 12)
        (first_handler-Keeps {a = a} hs g e v)

  pub sysreg-Keeps :
      {a : Area} (g : ℕ) (e : RecExit) (v : ℕ) → Keeps a (handle_sysreg_access_trap m g e v)
  unfolding handle_sysreg_access_trap
  sysreg-Keeps g e v = search (keeps_rules, first_handler-Keeps)

  retired-Keeps : {a : Area} (fuel n c : ℕ) → Keeps a (wait_retired m fuel n c)
  unfolding wait_retired
  retired-Keeps {a = a} zero n c = record { at = λ s h. tt }
  retired-Keeps {a = a} (suc fuel) n c =
      Keeps-test (λ s. not_retired c (m.icc_hppir1_el1 s n)) _ (pure tt)
        (retired-Keeps {a = a} fuel (suc n) c) (Keeps-pure tt)

  pub timers-Keeps : {a : Area} (fuel g : ℕ) → Keeps a (check_pending_timers m fuel g)
  unfolding check_pending_timers
  timers-Keeps fuel g = search (keeps_rules, retired-Keeps) depth 16

external-Keeps : {a : Area} (e : RecExit) (v : ℕ) → Keeps a (handle_sync_external_abort e v)
unfolding handle_sync_external_abort system_abort
external-Keeps e v = search (keeps_rules, inject-Keeps) depth 12

pub emulate-Keeps :
    {a : Area} (g : ℕ) (e : RecExit) (l : ℕ) → Keeps a (emulate_stage2_data_abort g e l)
unfolding emulate_stage2_data_abort
emulate-Keeps g e l = search keeps_rules depth 12

fixup-Keeps : {a : Area} (v : ℕ) → Keeps a (fixup_aarch32_data_abort v)
unfolding fixup_aarch32_data_abort
fixup-Keeps v = search keeps_rules depth 12

write_value-Keeps : {a : Area} (g v : ℕ) → Keeps a (get_dabt_write_value g v)
unfolding get_dabt_write_value access_mask
write_value-Keeps g v = search keeps_rules depth 16

report-Keeps : {a : Area} (g : ℕ) (e : RecExit) (v h : ℕ) → Keeps a (report_emulated g e v h)
unfolding report_emulated
report-Keeps g e v h = search (keeps_rules, write_value-Keeps) depth 12

module _ (plat : Platform) where
  is_empty-Keeps : {a : Area} (ipa g : ℕ) → Keeps a (ipa_is_empty plat ipa g)
  unfolding ipa_is_empty s2tte_get_ripas
  is_empty-Keeps ipa g =
      search (keeps_rules, granule_lock-Keeps, granule_unlock-Keeps, walk-Keeps) depth 24

  pub data_abort-Keeps :
      {a : Area} (g : ℕ) (e : RecExit) (v : ℕ) → Keeps a (handle_data_abort plat g e v)
  unfolding handle_data_abort
  data_abort-Keeps g e v =
      search (keeps_rules, external-Keeps, is_empty-Keeps, inject-Keeps, fixup-Keeps, report-Keeps)
        depth 24

  pub instruction_abort-Keeps :
      {a : Area} (g : ℕ) (e : RecExit) (v : ℕ) → Keeps a (handle_instruction_abort plat g e v)
  unfolding handle_instruction_abort
  instruction_abort-Keeps g e v =
      search (keeps_rules, external-Keeps, is_empty-Keeps, inject-Keeps) depth 24
