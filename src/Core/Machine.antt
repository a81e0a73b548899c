-- ===== src/Core/Machine.antt =====
-- What the processor does by itself: its identification registers, its pending interrupts, and what a
-- realm does between an entry and the exception that ends it; and what else the run of a realm meets
-- that the source does not fix.
use acai_rmm.Common.{ℕ, Bool}
use acai_rmm.State.{SysregState, Rmm}
use acai_rmm.Gic.{GicVirtFeature}
use acai_rmm.Rsi.Interface.{S2WalkResult}
use acai_rmm.Rsi.Psci.{PsciResult}
use acai_rmm.Rsi.DevMem.{DevMem}
use acai_rmm.Rsi.Attest.{TokenLibrary, AttestResult}

-- What is found when `run_realm` returns: the exception, the general registers, the registers of
-- the processor that a realm writes or that the exception sets, and the pages of the realm's memory.
pub record RealmExit : Type 0 where
  pub exception : ℕ
  pub regs : ℕ → ℕ
  pub el1 : SysregState
  pub elr_el2 : ℕ
  pub spsr_el2 : ℕ
  pub esr_el2 : ℕ
  pub far_el2 : ℕ
  pub hpfar_el2 : ℕ
  pub vectors : ℕ
  pub page : ℕ → ℕ → ℕ

-- What the variables hold that the source does not initialise.
pub record Stack : Type 0 where
  pub psci_result : PsciResult
  pub attest_result : AttestResult
  pub config_walk : S2WalkResult
  pub host_call_walk : S2WalkResult
  pub dev_mem_walk : ℕ → S2WalkResult
  pub dev_mem : DevMem

pub record Machine : Type 0 where
  -- the identification registers, by their encoding in a syndrome
  pub idreg : ℕ → ℕ
  pub sve_present : Bool
  pub features : GicVirtFeature
  -- what the n-th reading of ISR_EL1, or of ICC_HPPIR1_EL1, in a row gives
  pub isr_el1 : Rmm → ℕ → ℕ
  pub icc_hppir1_el1 : Rmm → ℕ → ℕ
  -- the realm of an execution context runs until the next exception
  pub run_realm : ℕ → Rmm → RealmExit
  -- the token library, the bytes of the monitor's address space, and the variables above
  pub library : TokenLibrary
  pub memory : ℕ → ℕ
  pub stack : Stack
  -- how often a loop that waits for the processor or for the library may go round
  pub patience : ℕ
