-- ===== src/Core/Run/Loop/Host.antt =====
-- runtime/core/run.c: what the host finds in its registers after a realm has run.
use acai_rmm.Common.{ℕ, ◌≡◌, refl, arith}
use acai_rmm.State.{Platform, SysregState, Rmm, done}
use acai_rmm.Gic.{gic_save_state}
use acai_rmm.Core.Machine.{Machine}
use acai_rmm.Core.Timers.{TimerExit, report_timer_state_to_ns}
use acai_rmm.Core.Run.Switch.{
  save_sysreg_state, restore_sysreg_state, save_ns_state, restore_ns_state, save_realm_state,
  restore_realm_state, configure_realm_stage2,
}
use acai_rmm.Core.Run.Loop.{enter_realm, leave_realm, give_back_vectors, init_aux_data, attach_heap}

-- The registers of the host that the monitor saves.
pub record IsRestored (a b : SysregState) : Type 0 where
  pub sp_el0 : a.sp_el0 ≡ b.sp_el0
  pub sp_el1 : a.sp_el1 ≡ b.sp_el1
  pub elr_el1 : a.elr_el1 ≡ b.elr_el1
  pub spsr_el1 : a.spsr_el1 ≡ b.spsr_el1
  pub pmcr_el0 : a.pmcr_el0 ≡ b.pmcr_el0
  pub pmuserenr_el0 : a.pmuserenr_el0 ≡ b.pmuserenr_el0
  pub tpidrro_el0 : a.tpidrro_el0 ≡ b.tpidrro_el0
  pub tpidr_el0 : a.tpidr_el0 ≡ b.tpidr_el0
  pub csselr_el1 : a.csselr_el1 ≡ b.csselr_el1
  pub sctlr_el1 : a.sctlr_el1 ≡ b.sctlr_el1
  pub actlr_el1 : a.actlr_el1 ≡ b.actlr_el1
  pub cpacr_el1 : a.cpacr_el1 ≡ b.cpacr_el1
  pub ttbr0_el1 : a.ttbr0_el1 ≡ b.ttbr0_el1
  pub ttbr1_el1 : a.ttbr1_el1 ≡ b.ttbr1_el1
  pub tcr_el1 : a.tcr_el1 ≡ b.tcr_el1
  pub esr_el1 : a.esr_el1 ≡ b.esr_el1
  pub afsr0_el1 : a.afsr0_el1 ≡ b.afsr0_el1
  pub afsr1_el1 : a.afsr1_el1 ≡ b.afsr1_el1
  pub far_el1 : a.far_el1 ≡ b.far_el1
  pub mair_el1 : a.mair_el1 ≡ b.mair_el1
  pub vbar_el1 : a.vbar_el1 ≡ b.vbar_el1
  pub contextidr_el1 : a.contextidr_el1 ≡ b.contextidr_el1
  pub tpidr_el1 : a.tpidr_el1 ≡ b.tpidr_el1
  pub amair_el1 : a.amair_el1 ≡ b.amair_el1
  pub cntkctl_el1 : a.cntkctl_el1 ≡ b.cntkctl_el1
  pub par_el1 : a.par_el1 ≡ b.par_el1
  pub mdscr_el1 : a.mdscr_el1 ≡ b.mdscr_el1
  pub mdccint_el1 : a.mdccint_el1 ≡ b.mdccint_el1
  pub disr_el1 : a.disr_el1 ≡ b.disr_el1
  pub cnthctl_el2 : a.cnthctl_el2 ≡ b.cnthctl_el2
  pub cntvoff_el2 : a.cntvoff_el2 ≡ b.cntvoff_el2
  pub cntpoff_el2 : a.cntpoff_el2 ≡ b.cntpoff_el2
  pub cntp_ctl_el0 : a.cntp_ctl_el0 ≡ b.cntp_ctl_el0
  pub cntp_cval_el0 : a.cntp_cval_el0 ≡ b.cntp_cval_el0
  pub cntv_ctl_el0 : a.cntv_ctl_el0 ≡ b.cntv_ctl_el0
  pub cntv_cval_el0 : a.cntv_cval_el0 ≡ b.cntv_cval_el0

-- The area that the host's registers are saved to, and the registers after they are restored from it.
abbrev pub saved : Rmm → SysregState
saved s = record (save_sysreg_state s.cpu.el1 s.cpu.ns_data.sysregs) {
  cnthctl_el2 = s.cpu.el1.cnthctl_el2;
}

abbrev pub restored : SysregState → SysregState → SysregState
restored area cpu = record (restore_sysreg_state area cpu) { cnthctl_el2 = area.cnthctl_el2 }

restored-saved : (s : Rmm) (cpu : SysregState) → IsRestored (restored (saved s) cpu) s.cpu.el1
unfolding save_sysreg_state restore_sysreg_state
restored-saved s cpu = record {
  sp_el0 = refl;
  sp_el1 = refl;
  elr_el1 = refl;
  spsr_el1 = refl;
  pmcr_el0 = refl;
  pmuserenr_el0 = refl;
  tpidrro_el0 = refl;
  tpidr_el0 = refl;
  csselr_el1 = refl;
  sctlr_el1 = refl;
  actlr_el1 = refl;
  cpacr_el1 = refl;
  ttbr0_el1 = refl;
  ttbr1_el1 = refl;
  tcr_el1 = refl;
  esr_el1 = refl;
  afsr0_el1 = refl;
  afsr1_el1 = refl;
  far_el1 = refl;
  mair_el1 = refl;
  vbar_el1 = refl;
  contextidr_el1 = refl;
  tpidr_el1 = refl;
  amair_el1 = refl;
  cntkctl_el1 = refl;
  par_el1 = refl;
  mdscr_el1 = refl;
  mdccint_el1 = refl;
  disr_el1 = refl;
  cnthctl_el2 = refl;
  cntvoff_el2 = refl;
  cntpoff_el2 = refl;
  cntp_ctl_el0 = refl;
  cntp_cval_el0 = refl;
  cntv_ctl_el0 = refl;
  cntv_cval_el0 = refl;
}

pub brought_back :
    (x cpu area : SysregState) (s : Rmm)
    → x ≡ restored area cpu
    → area ≡ saved s
    → IsRestored x s.cpu.el1
brought_back x cpu area s p q = rw (p, q) (restored-saved s cpu)

module _ (plat : Platform) (m : Machine) (g : ℕ) where
  pub enter_lem :
      (s a : Rmm)
      → enter_realm plat m g s ≡ done tt a
      → (a.cpu.ns_data.sysregs ≡ saved s) × (a.cpu.ns_data.icc_sre_el2 ≡ s.cpu.icc_sre_el2)
  unfolding enter_realm init_aux_data attach_heap save_ns_state restore_realm_state
      configure_realm_stage2
  enter_lem s a h = ground (arith, h)

  pub leave_lem :
      (b t : Rmm) (x : TimerExit)
      → leave_realm plat m g b ≡ done x t
      → (cpu : SysregState) × (t.cpu.el1 ≡ restored b.cpu.ns_data.sysregs cpu)
        × (t.cpu.icc_sre_el2 ≡ b.cpu.ns_data.icc_sre_el2)
  unfolding leave_realm give_back_vectors report_timer_state_to_ns save_realm_state restore_ns_state
  leave_lem b t x h = (
    record b.cpu.el1 {
      gicstate = (gic_save_state m.features (b.recs g).sysregs.gicstate b.cpu.el1.gicstate).1;
    },
    ground (arith, h),
    ground (arith, h),
  )
