-- ===== src/Rmi/Rec/Params.antt =====
-- runtime/rmi/rec.c: what an execution context starts with.
use acai_rmm.Common.{
  ℕ, ◌+◌, ◌-◌, ◌*◌, ◌%◌, ◌^◌, leb, ltb, ◌==◌, if◌then◌else◌, bit_and, bit_or, [], ◌∷◌,
}
use acai_rmm.State.{Platform, Rd, Rec, Command, pure, ◌>>=◌, ◌>>◌, assert, zero_gic}
use acai_rmm.Granule.Find.{granule_addr}
use acai_rmm.Rmi.Rtt.Measure.{
  page_words, set_rim, measure_desc_type_rec, measurement_desc_size, rim_measurement_slot,
}
use acai_rmm.Rsi.Psci.{reset_pstate, sctlr_el1_flags}

-- `struct rmi_rec_params`
pub record RecParams : Type 0 where
  pub flags : ℕ
  pub mpidr : ℕ
  pub pc : ℕ
  pub gprs : ℕ → ℕ
  pub num_aux : ℕ
  pub aux : ℕ → ℕ

abbrev pub rec_create_nr_gprs : ℕ
rec_create_nr_gprs = 8

-- The register values of lib/arch/include/arch.h and lib/gic/include/gic.h.
abbrev pub pmcr_el0_res1 : ℕ
pmcr_el0_res1 = 0x40

abbrev pub mdscr_el1_tdcc_bit : ℕ
mdscr_el1_tdcc_bit = 0x1000

abbrev pub vmpidr_el2_res1 : ℕ
vmpidr_el2_res1 = 0x80000000

abbrev pub cnthctl_el2_no_traps : ℕ
cnthctl_el2_no_traps = 0xc00

abbrev pub hcr_flags : ℕ
hcr_flags = 0x4024800c043f

abbrev pub vtcr_flags : ℕ
vtcr_flags = 0xc0023500

abbrev pub vtcr_vs : ℕ
vtcr_vs = 0x80000

-- The parameters that are measured, then the descriptor over their digest.
unfoldable pub rec_params_measure : Platform → Rd → RecParams → Rd
rec_params_measure plat d p =
    let measured = p.pc ∷ p.flags ∷ page_words rec_create_nr_gprs 0 p.gprs in
    set_rim plat d (
      measure_desc_type_rec
      ∷ measurement_desc_size
      ∷ d.measurement rim_measurement_slot
      ∷ plat.hash d.algorithm measured
      ∷ [])

unfoldable pub init_rec_sysregs : Rec → ℕ → Rec
init_rec_sysregs r mpidr = record r {
  sysregs = record r.sysregs {
    pmcr_el0 = pmcr_el0_res1;
    sctlr_el1 = sctlr_el1_flags;
    mdscr_el1 = mdscr_el1_tdcc_bit;
    vmpidr_el2 = bit_or mpidr vmpidr_el2_res1;
    cnthctl_el2 = cnthctl_el2_no_traps;
  };
}

-- `sl0_val`
unfoldable pub sl0_val : ℕ → ℕ
sl0_val level =
    if level == 0 then 0x80 else if level == 1 then 0x40 else if level == 2 then 0 else 0xc0

unfoldable pub realm_vtcr : Platform → Rd → Command ℕ
unfolding sl0_val
realm_vtcr plat d = do
  assert (leb d.s2_ctx.s2_starting_level 3)
  let vtcr = if plat.vmid16_present then bit_or vtcr_flags vtcr_vs else vtcr_flags
  let t0sz = bit_and ((64 + 2 ^ 64 - d.s2_ctx.ipa_bits) % 2 ^ 64) 0x3f
  pure (bit_or (bit_or vtcr t0sz) (sl0_val d.s2_ctx.s2_starting_level))

-- `MASK(TTBRx_EL2_BADDR)` is bits 1 to 47.
unfoldable pub init_common_sysregs : Platform → Rec → Rd → Command Rec
unfolding realm_vtcr
init_common_sysregs plat r d = do
  vtcr ← realm_vtcr plat d
  let baddr = bit_and (granule_addr plat d.s2_ctx.g_rtt) ((2 ^ 47 - 1) * 2)
  pure (record r {
    common_sysregs = record {
      hcr_el2 = hcr_flags;
      vtcr_el2 = vtcr;
      vttbr_el2 = bit_or baddr (d.s2_ctx.vmid * 2 ^ 48 % 2 ^ 64);
    };
  })

-- The registers 0 to 7 are given; the others keep what the page holds.
unfoldable pub init_rec_regs : Platform → Rec → RecParams → Rd → Command Rec
unfolding init_rec_sysregs init_common_sysregs
init_rec_regs plat r p d =
    let started : Rec = record r {
      regs = λ i. if ltb i rec_create_nr_gprs then p.gprs i else r.regs i;
      pc = p.pc;
      pstate = reset_pstate;
    } in
    init_common_sysregs plat (init_rec_sysregs started p.mpidr) d

-- `gic_cpu_state_init` of lib/gic/src/gic.c: all is 0 but the enable, VSGIEEOICOUNT and DVIM bits.
unfoldable pub gic_cpu_state_init : Rec → Rec
gic_cpu_state_init r = record r {
  sysregs = record r.sysregs { gicstate = record zero_gic { ich_hcr_el2 = 0x8101 } };
}
