-- ===== src/Core/Inject.antt =====
-- runtime/core/inject_exp.c: an exception is inserted into a realm.
use acai_rmm.Common.{ℕ, ◌+◌, ◌%◌, ◌^◌, ◌||◌, ◌==◌, ◌!=◌, if◌then◌else◌, bit_and, bit_or}
use acai_rmm.State.{Command, fault, assertion, pure, ◌>>=◌, ◌>>◌, assert, read_rec, write_rec}
use acai_rmm.Core.Esr.{
  complement, esr_el2_ec_mask, esr_el2_abort_fsc_mask, esr_el2_abort_fnv_bit,
  esr_el2_abort_s1ptw_bit, esr_el2_ec_inst_abort, esr_el2_ec_data_abort, esr_el2_abort_ea_bit,
  esr_el2_il_mask, esr_el2_ec_unknown,
}
use acai_rmm.Core.Registers.{read_cpu, write_cpu}

-- Of lib/arch/include/arch.h: the mode of a processor state, and the offsets of the vectors.
abbrev pub spsr_el2_mode : ℕ
spsr_el2_mode = 0xf

abbrev pub spsr_el2_mode_el0t : ℕ
spsr_el2_mode_el0t = 0

abbrev pub spsr_el2_mode_el1t : ℕ
spsr_el2_mode_el1t = 4

abbrev pub spsr_el2_mode_el1h : ℕ
spsr_el2_mode_el1h = 5

abbrev pub spsr_el2_nrw : ℕ
spsr_el2_nrw = 2 ^ 4

unfoldable pub calc_vector_entry : ℕ → ℕ → Command ℕ
calc_vector_entry vbar spsr =
    if bit_and spsr spsr_el2_mode == spsr_el2_mode_el1h
    then pure ((vbar + 0x200) % 2 ^ 64)
    else if bit_and spsr spsr_el2_mode == spsr_el2_mode_el1t
    then pure ((vbar + 0x0) % 2 ^ 64)
    else if bit_and spsr spsr_el2_mode == spsr_el2_mode_el0t
    then if bit_and spsr spsr_el2_nrw == 0
      then pure ((vbar + 0x400) % 2 ^ 64)
      else pure ((vbar + 0x600) % 2 ^ 64)
    else (λ s. fault assertion)

-- EL1h with the four mask bits F, I, A and D.
unfoldable pub calc_pstate : ℕ
calc_pstate = spsr_el2_mode_el1h + 2 ^ 6 + 2 ^ 7 + 2 ^ 8 + 2 ^ 9

unfoldable pub calc_esr_idabort : ℕ → ℕ → ℕ → Command ℕ
calc_esr_idabort esr_el2 spsr_el2 fsc = do
  let kept = bit_and esr_el2 (
      complement (
        esr_el2_ec_mask + esr_el2_abort_fsc_mask + esr_el2_abort_fnv_bit + esr_el2_abort_s1ptw_bit))
  let ec = bit_and esr_el2 esr_el2_ec_mask
  assert (ec == esr_el2_ec_inst_abort || ec == esr_el2_ec_data_abort)
  let ec' = if bit_and spsr_el2 spsr_el2_mode != spsr_el2_mode_el0t then ec + 2 ^ 26 else ec
  assert (bit_and fsc (complement esr_el2_abort_fsc_mask) == 0)
  pure (bit_or (bit_or (bit_or kept ec') fsc) esr_el2_abort_ea_bit)

unfoldable pub inject_sync_idabort : ℕ → Command (Unit {0})
unfolding calc_esr_idabort calc_vector_entry calc_pstate
inject_sync_idabort fsc = do
  c ← read_cpu
  esr_el1 ← calc_esr_idabort c.esr_el2 c.spsr_el2 fsc
  pc ← calc_vector_entry c.el1.vbar_el1 c.spsr_el2
  write_cpu (record c {
    el1 = record c.el1 {
      far_el1 = c.far_el2;
      elr_el1 = c.elr_el2;
      spsr_el1 = c.spsr_el2;
      esr_el1 = esr_el1;
    };
    elr_el2 = pc;
    spsr_el2 = calc_pstate;
  })

unfoldable pub inject_sync_idabort_rec : ℕ → ℕ → Command (Unit {0})
unfolding calc_esr_idabort calc_vector_entry calc_pstate
inject_sync_idabort_rec g_rec fsc = do
  r ← read_rec g_rec
  esr_el1 ← calc_esr_idabort r.last_run_info.esr r.pstate fsc
  pc ← calc_vector_entry r.sysregs.vbar_el1 r.pstate
  write_rec g_rec (record r {
    sysregs = record r.sysregs {
      far_el1 = r.last_run_info.far;
      elr_el1 = r.pc;
      spsr_el1 = r.pstate;
      esr_el1 = esr_el1;
    };
    pc = pc;
    pstate = calc_pstate;
  })

unfoldable pub realm_inject_undef_abort : Command (Unit {0})
unfolding calc_vector_entry calc_pstate
realm_inject_undef_abort = do
  c ← read_cpu
  pc ← calc_vector_entry c.el1.vbar_el1 c.spsr_el2
  write_cpu (record c {
    el1 = record c.el1 {
      elr_el1 = c.elr_el2;
      spsr_el1 = c.spsr_el2;
      esr_el1 = bit_or esr_el2_il_mask esr_el2_ec_unknown;
    };
    elr_el2 = pc;
    spsr_el2 = calc_pstate;
  })
