-- ===== src/Core/Run/Switch.antt =====
-- runtime/core/run.c: the registers are saved and restored. MPAM is not built in.
use acai_rmm.Common.{ℕ, ◌^◌, false, if◌then◌else◌, bit_or}
use acai_rmm.State.{SysregState, Command, pure, ◌>>=◌, ◌>>◌, read_rec, write_rec}
use acai_rmm.Gic.{GicVirtFeature, gic_save_state, gic_restore_state}
use acai_rmm.Core.Registers.{read_cpu, write_cpu}

-- The processor's registers `cpu` are read into `onto`.
unfoldable pub save_sysreg_state : SysregState → SysregState → SysregState
save_sysreg_state cpu onto = record onto {
  sp_el0 = cpu.sp_el0;
  sp_el1 = cpu.sp_el1;
  elr_el1 = cpu.elr_el1;
  spsr_el1 = cpu.spsr_el1;
  pmcr_el0 = cpu.pmcr_el0;
  pmuserenr_el0 = cpu.pmuserenr_el0;
  tpidrro_el0 = cpu.tpidrro_el0;
  tpidr_el0 = cpu.tpidr_el0;
  csselr_el1 = cpu.csselr_el1;
  sctlr_el1 = cpu.sctlr_el1;
  actlr_el1 = cpu.actlr_el1;
  cpacr_el1 = cpu.cpacr_el1;
  ttbr0_el1 = cpu.ttbr0_el1;
  ttbr1_el1 = cpu.ttbr1_el1;
  tcr_el1 = cpu.tcr_el1;
  esr_el1 = cpu.esr_el1;
  afsr0_el1 = cpu.afsr0_el1;
  afsr1_el1 = cpu.afsr1_el1;
  far_el1 = cpu.far_el1;
  mair_el1 = cpu.mair_el1;
  vbar_el1 = cpu.vbar_el1;
  contextidr_el1 = cpu.contextidr_el1;
  tpidr_el1 = cpu.tpidr_el1;
  amair_el1 = cpu.amair_el1;
  cntkctl_el1 = cpu.cntkctl_el1;
  par_el1 = cpu.par_el1;
  mdscr_el1 = cpu.mdscr_el1;
  mdccint_el1 = cpu.mdccint_el1;
  disr_el1 = cpu.disr_el1;
  cntpoff_el2 = cpu.cntpoff_el2;
  cntvoff_el2 = cpu.cntvoff_el2;
  cntp_ctl_el0 = cpu.cntp_ctl_el0;
  cntp_cval_el0 = cpu.cntp_cval_el0;
  cntv_ctl_el0 = cpu.cntv_ctl_el0;
  cntv_cval_el0 = cpu.cntv_cval_el0;
}

-- The registers `saved` are written to those of the processor, `cpu`.
unfoldable pub restore_sysreg_state : SysregState → SysregState → SysregState
restore_sysreg_state saved cpu = record cpu {
  sp_el0 = saved.sp_el0;
  sp_el1 = saved.sp_el1;
  elr_el1 = saved.elr_el1;
  spsr_el1 = saved.spsr_el1;
  pmcr_el0 = saved.pmcr_el0;
  pmuserenr_el0 = saved.pmuserenr_el0;
  tpidrro_el0 = saved.tpidrro_el0;
  tpidr_el0 = saved.tpidr_el0;
  csselr_el1 = saved.csselr_el1;
  sctlr_el1 = saved.sctlr_el1;
  actlr_el1 = saved.actlr_el1;
  cpacr_el1 = saved.cpacr_el1;
  ttbr0_el1 = saved.ttbr0_el1;
  ttbr1_el1 = saved.ttbr1_el1;
  tcr_el1 = saved.tcr_el1;
  esr_el1 = saved.esr_el1;
  afsr0_el1 = saved.afsr0_el1;
  afsr1_el1 = saved.afsr1_el1;
  far_el1 = saved.far_el1;
  mair_el1 = saved.mair_el1;
  vbar_el1 = saved.vbar_el1;
  contextidr_el1 = saved.contextidr_el1;
  tpidr_el1 = saved.tpidr_el1;
  amair_el1 = saved.amair_el1;
  cntkctl_el1 = saved.cntkctl_el1;
  par_el1 = saved.par_el1;
  mdscr_el1 = saved.mdscr_el1;
  mdccint_el1 = saved.mdccint_el1;
  disr_el1 = saved.disr_el1;
  vmpidr_el2 = saved.vmpidr_el2;
  cntpoff_el2 = saved.cntpoff_el2;
  cntvoff_el2 = saved.cntvoff_el2;
  cntp_cval_el0 = saved.cntp_cval_el0;
  cntp_ctl_el0 = saved.cntp_ctl_el0;
  cntv_cval_el0 = saved.cntv_cval_el0;
  cntv_ctl_el0 = saved.cntv_ctl_el0;
}

unfoldable pub save_realm_state : GicVirtFeature → ℕ → Command (Unit {0})
unfolding save_sysreg_state
save_realm_state f g_rec = do
  c ← read_cpu
  r ← read_rec g_rec
  let gic = gic_save_state f r.sysregs.gicstate c.el1.gicstate
  write_rec g_rec (record r {
    sysregs = record (save_sysreg_state c.el1 r.sysregs) { gicstate = gic.0 };
    pc = c.elr_el2;
    pstate = c.spsr_el2;
  })
  write_cpu (record c { el1 = record c.el1 { gicstate = gic.1 } })

unfoldable pub restore_realm_state : GicVirtFeature → ℕ → Command (Unit {0})
unfolding restore_sysreg_state
restore_realm_state f g_rec = do
  c ← read_cpu
  r ← read_rec g_rec
  write_cpu (record c {
    el1 = record (restore_sysreg_state r.sysregs c.el1) {
      cnthctl_el2 = r.sysregs.cnthctl_el2;
      hcr_el2 = r.sysregs.hcr_el2;
      gicstate = gic_restore_state f r.sysregs.gicstate c.el1.gicstate;
    };
    elr_el2 = r.pc;
    spsr_el2 = r.pstate;
  })

unfoldable pub configure_realm_stage2 : ℕ → Command (Unit {0})
configure_realm_stage2 g_rec = do
  c ← read_cpu
  r ← read_rec g_rec
  write_cpu
      (record c { vtcr_el2 = r.common_sysregs.vtcr_el2; vttbr_el2 = r.common_sysregs.vttbr_el2 })

-- CNTHCTL_EL2 is saved and restored apart from the other registers.
unfoldable pub save_ns_state : Command (Unit {0})
unfolding save_sysreg_state
save_ns_state = do
  c ← read_cpu
  write_cpu (record c {
    ns_data = record c.ns_data {
      sysregs = record (save_sysreg_state c.el1 c.ns_data.sysregs) {
        cnthctl_el2 = c.el1.cnthctl_el2;
      };
      icc_sre_el2 = c.icc_sre_el2;
    };
  })

unfoldable pub restore_ns_state : Command (Unit {0})
unfolding restore_sysreg_state
restore_ns_state = do
  c ← read_cpu
  write_cpu (record c {
    el1 = record (restore_sysreg_state c.ns_data.sysregs c.el1) {
      cnthctl_el2 = c.ns_data.sysregs.cnthctl_el2;
    };
    icc_sre_el2 = c.ns_data.icc_sre_el2;
  })

-- `HCR_VSE` is bit 8.
unfoldable pub activate_events : ℕ → Command (Unit {0})
activate_events g_rec = do
  r ← read_rec g_rec
  if r.serror_info.inject
      then (do
        c ← read_cpu
        write_cpu (record c {
          vsesr_el2 = r.serror_info.vsesr_el2;
          el1 = record c.el1 { hcr_el2 = bit_or r.sysregs.hcr_el2 (2 ^ 8) };
        })
        write_rec g_rec (record r { serror_info = record r.serror_info { inject = false } }))
      else pure tt
