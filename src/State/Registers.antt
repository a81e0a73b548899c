-- ===== src/State/Registers.antt =====
-- The registers that belong to an execution context or to the host (lib/realm/include/rec.h and
-- lib/gic/include/gic.h), and those of the processor that the monitor runs on.
use acai_rmm.Common.{ℕ, Bool, false}

-- `struct gic_cpu_state`; the registers of the processor have the same shape.
pub record GicCpuState : Type 0 where
  pub ich_ap0r_el2 : ℕ → ℕ
  pub ich_ap1r_el2 : ℕ → ℕ
  pub ich_vmcr_el2 : ℕ
  pub ich_hcr_el2 : ℕ
  pub ich_lr_el2 : ℕ → ℕ
  pub ich_misr_el2 : ℕ

-- `struct sysreg_state`
pub record SysregState : Type 0 where
  pub sp_el0 : ℕ
  pub sp_el1 : ℕ
  pub elr_el1 : ℕ
  pub spsr_el1 : ℕ
  pub pmcr_el0 : ℕ
  pub pmuserenr_el0 : ℕ
  pub tpidrro_el0 : ℕ
  pub tpidr_el0 : ℕ
  pub csselr_el1 : ℕ
  pub sctlr_el1 : ℕ
  pub actlr_el1 : ℕ
  pub cpacr_el1 : ℕ
  pub zcr_el1 : ℕ
  pub ttbr0_el1 : ℕ
  pub ttbr1_el1 : ℕ
  pub tcr_el1 : ℕ
  pub esr_el1 : ℕ
  pub afsr0_el1 : ℕ
  pub afsr1_el1 : ℕ
  pub far_el1 : ℕ
  pub mair_el1 : ℕ
  pub vbar_el1 : ℕ
  pub contextidr_el1 : ℕ
  pub tpidr_el1 : ℕ
  pub amair_el1 : ℕ
  pub cntkctl_el1 : ℕ
  pub par_el1 : ℕ
  pub mdscr_el1 : ℕ
  pub mdccint_el1 : ℕ
  pub disr_el1 : ℕ
  pub mpam0_el1 : ℕ
  pub cnthctl_el2 : ℕ
  pub cntvoff_el2 : ℕ
  pub cntpoff_el2 : ℕ
  pub cntp_ctl_el0 : ℕ
  pub cntp_cval_el0 : ℕ
  pub cntv_ctl_el0 : ℕ
  pub cntv_cval_el0 : ℕ
  pub gicstate : GicCpuState
  pub vmpidr_el2 : ℕ
  pub hcr_el2 : ℕ

-- `struct common_sysreg_state`
pub record CommonSysregState : Type 0 where
  pub vttbr_el2 : ℕ
  pub vtcr_el2 : ℕ
  pub hcr_el2 : ℕ

-- The member `last_run_info` of `struct rec`.
pub record LastRunInfo : Type 0 where
  pub esr : ℕ
  pub hpfar : ℕ
  pub far : ℕ

-- `struct rec_fpu_context`; the content of the vector registers is one number.
pub record RecFpuContext : Type 0 where
  pub fpu : ℕ
  pub used : Bool

-- The members of `struct token_sign_ctx` that the monitor reads; the challenge as 64-bit words.
pub record TokenSignCtx : Type 0 where
  pub state : ℕ
  pub token_ipa : ℕ
  pub challenge : ℕ → ℕ

-- The member `serror_info` of `struct rec`.
pub record SerrorInfo : Type 0 where
  pub vsesr_el2 : ℕ
  pub inject : Bool

-- `struct ns_state`; where `sve` and `fpu` point, both to the same buffer of the processor, is
-- whether they are NULL and what the buffer holds.
pub record NsState : Type 0 where
  pub sysregs : SysregState
  pub icc_sre_el2 : ℕ
  pub sve_set : Bool
  pub fpu_set : Bool
  pub vectors : ℕ

-- The processor: the registers that `struct sysreg_state` names, read and written by their names
-- with the suffixes of a lower exception level, the others that the monitor uses, the vector
-- registers, and the element of `g_ns_data` for this processor.
pub record Cpu : Type 0 where
  pub el1 : SysregState
  pub elr_el2 : ℕ
  pub spsr_el2 : ℕ
  pub esr_el2 : ℕ
  pub far_el2 : ℕ
  pub hpfar_el2 : ℕ
  pub vtcr_el2 : ℕ
  pub vttbr_el2 : ℕ
  pub vsesr_el2 : ℕ
  pub icc_sre_el2 : ℕ
  pub cptr_el2 : ℕ
  pub vectors : ℕ
  pub ns_data : NsState

abbrev pub zero_gic : GicCpuState
zero_gic = record {
  ich_ap0r_el2 = λ _. 0;
  ich_ap1r_el2 = λ _. 0;
  ich_vmcr_el2 = 0;
  ich_hcr_el2 = 0;
  ich_lr_el2 = λ _. 0;
  ich_misr_el2 = 0;
}

abbrev pub zero_sysregs : SysregState
zero_sysregs = record {
  sp_el0 = 0;
  sp_el1 = 0;
  elr_el1 = 0;
  spsr_el1 = 0;
  pmcr_el0 = 0;
  pmuserenr_el0 = 0;
  tpidrro_el0 = 0;
  tpidr_el0 = 0;
  csselr_el1 = 0;
  sctlr_el1 = 0;
  actlr_el1 = 0;
  cpacr_el1 = 0;
  zcr_el1 = 0;
  ttbr0_el1 = 0;
  ttbr1_el1 = 0;
  tcr_el1 = 0;
  esr_el1 = 0;
  afsr0_el1 = 0;
  afsr1_el1 = 0;
  far_el1 = 0;
  mair_el1 = 0;
  vbar_el1 = 0;
  contextidr_el1 = 0;
  tpidr_el1 = 0;
  amair_el1 = 0;
  cntkctl_el1 = 0;
  par_el1 = 0;
  mdscr_el1 = 0;
  mdccint_el1 = 0;
  disr_el1 = 0;
  mpam0_el1 = 0;
  cnthctl_el2 = 0;
  cntvoff_el2 = 0;
  cntpoff_el2 = 0;
  cntp_ctl_el0 = 0;
  cntp_cval_el0 = 0;
  cntv_ctl_el0 = 0;
  cntv_cval_el0 = 0;
  gicstate = zero_gic;
  vmpidr_el2 = 0;
  hcr_el2 = 0;
}

abbrev pub zero_common_sysregs : CommonSysregState
zero_common_sysregs = record { vttbr_el2 = 0; vtcr_el2 = 0; hcr_el2 = 0 }

abbrev pub zero_cpu : Cpu
zero_cpu = record {
  el1 = zero_sysregs;
  elr_el2 = 0;
  spsr_el2 = 0;
  esr_el2 = 0;
  far_el2 = 0;
  hpfar_el2 = 0;
  vtcr_el2 = 0;
  vttbr_el2 = 0;
  vsesr_el2 = 0;
  icc_sre_el2 = 0;
  cptr_el2 = 0;
  vectors = 0;
  ns_data = record {
    sysregs = zero_sysregs;
    icc_sre_el2 = 0;
    sve_set = false;
    fpu_set = false;
    vectors = 0;
  };
}
