-- ===== src/State/Types.antt =====
-- The data of the monitor: the granule array (lib/realm/include/granule_types.h), the realm
-- descriptor (lib/realm/include/realm.h), the execution context (lib/realm/include/rec.h).
-- A pointer into the granule array is its index there.
use acai_rmm.Common.{ℕ, Bool, true, false, ◌≡◌, List, ◌==◌, arith, ◌↔◌}
use acai_rmm.State.Registers.{
  SysregState, CommonSysregState, LastRunInfo, RecFpuContext, TokenSignCtx, SerrorInfo, Cpu,
  zero_sysregs, zero_common_sysregs,
}

-- `enum granule_state`
pub data GranuleState : Type 0 where
  ns delegated rd rec rec_aux data_granule rtt : GranuleState

-- The values that the enumeration gives them.
abbrev pub state_code : GranuleState → ℕ
state_code ns = 0
state_code delegated = 1
state_code rd = 2
state_code rec = 3
state_code rec_aux = 4
state_code data_granule = 5
state_code rtt = 6

abbrev pub same_state : GranuleState → GranuleState → Bool
same_state a b = state_code a == state_code b

pub same_state_iff : (a b : GranuleState) → (same_state a b ≡ true) ↔ (a ≡ b)
same_state_iff a b = ground arith

-- `struct granule`
pub record Granule : Type 0 where
  pub lock : Bool
  pub state : GranuleState
  pub refcount : ℕ
  pub nsp : Bool

-- `struct realm_s2_context`
pub record S2Context : Type 0 where
  pub ipa_bits : ℕ
  pub s2_starting_level : ℕ
  pub num_root_rtts : ℕ
  pub g_rtt : ℕ
  pub vmid : ℕ

-- `struct rd`; a digest and the personalization value are numbers, read from their bytes.
pub record Rd : Type 0 where
  pub state : ℕ
  pub rec_count : ℕ
  pub s2_ctx : S2Context
  pub num_rec_aux : ℕ
  pub algorithm : ℕ
  pub measurement : ℕ → ℕ
  pub rpv : ℕ

abbrev pub realm_state_new : ℕ
realm_state_new = 0

abbrev pub realm_state_active : ℕ
realm_state_active = 1

abbrev pub realm_state_system_off : ℕ
realm_state_system_off = 2

-- The member `set_ripas` of `struct rec`.
pub record SetRipas : Type 0 where
  pub start : ℕ
  pub end : ℕ
  pub addr : ℕ
  pub ripas : ℕ

-- The member `realm_info` of `struct rec`.
pub record RealmInfo : Type 0 where
  pub ipa_bits : ℕ
  pub s2_starting_level : ℕ
  pub g_rtt : ℕ
  pub g_rd : ℕ

-- `struct rec`, without the buffers of the attestation; the members `ns` and
-- `psci_info.pending` are whether they are set.
pub record Rec : Type 0 where
  pub g_rec : ℕ
  pub rec_idx : ℕ
  pub runnable : Bool
  pub regs : ℕ → ℕ
  pub pc : ℕ
  pub pstate : ℕ
  pub sysregs : SysregState
  pub common_sysregs : CommonSysregState
  pub set_ripas : SetRipas
  pub realm_info : RealmInfo
  pub last_run_info : LastRunInfo
  pub fpu_ctx : RecFpuContext
  pub ns_set : Bool
  pub psci_pending : Bool
  pub num_rec_aux : ℕ
  pub g_aux : ℕ → ℕ
  pub token_sign_ctx : TokenSignCtx
  pub ctx_initialised : Bool
  pub serror_info : SerrorInfo
  pub host_call : Bool

abbrev pub zero_rd : Rd
zero_rd = record {
  state = 0;
  rec_count = 0;
  s2_ctx = record { ipa_bits = 0; s2_starting_level = 0; num_root_rtts = 0; g_rtt = 0; vmid = 0 };
  num_rec_aux = 0;
  algorithm = 0;
  measurement = λ _. 0;
  rpv = 0;
}

abbrev pub zero_rec : Rec
zero_rec = record {
  g_rec = 0;
  rec_idx = 0;
  runnable = false;
  regs = λ _. 0;
  pc = 0;
  pstate = 0;
  sysregs = zero_sysregs;
  common_sysregs = zero_common_sysregs;
  set_ripas = record { start = 0; end = 0; addr = 0; ripas = 0 };
  realm_info = record { ipa_bits = 0; s2_starting_level = 0; g_rtt = 0; g_rd = 0 };
  last_run_info = record { esr = 0; hpfar = 0; far = 0 };
  fpu_ctx = record { fpu = 0; used = false };
  ns_set = false;
  psci_pending = false;
  num_rec_aux = 0;
  g_aux = λ _. 0;
  token_sign_ctx = record { state = 0; token_ipa = 0; challenge = λ _. 0 };
  ctx_initialised = false;
  serror_info = record { vsesr_el2 = 0; inject = false };
  host_call = false;
}

-- What leaves the monitor: calls of the EL3 monitor (lib/asc/src) and TLB maintenance.
pub data Event : Type 0 where
  mark_secure : ℕ → Event
  mark_nonsecure : ℕ → Event
  mark_secure_dev : ℕ → ℕ → ℕ → Event
  attach_dev : ℕ → Event
  request_device_ownership : ℕ → ℕ → Event
  tlbi_ipa : ℕ → ℕ → Event
  tlbi_all : ℕ → Event

-- The whole state. The page of a granule is seen as 64-bit words, as a realm descriptor or as an
-- execution context, by the state of the granule; the events stand newest first.
pub record Rmm : Type 0 where
  pub granules : ℕ → Granule
  pub page : ℕ → ℕ → ℕ
  pub rds : ℕ → Rd
  pub recs : ℕ → Rec
  pub vmids : ℕ → ℕ
  pub cpu : Cpu
  pub events : List Event
