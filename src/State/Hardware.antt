-- ===== src/State/Hardware.antt =====
-- What the platform and the hardware give: the granule numbering of
-- plat_granule_addr_to_idx and plat_granule_idx_to_addr, features, and the hash library.
use acai_rmm.Common.{ℕ, ◌<◌, ◌%◌, ◌^◌, ◌≡◌, Bool, List}
use acai_rmm.State.Types.{Event}

abbrev pub granule_size : ℕ
granule_size = 4096

pub record Platform : Type 0 where
  pub max_granules : ℕ
  pub addr_to_idx : ℕ → ℕ
  pub idx_to_addr : ℕ → ℕ
  pub vmid16_present : Bool
  pub lpa2_4k_present : Bool
  pub pa_width : ℕ
  -- the digest of a message under an algorithm
  pub hash : ℕ → List ℕ → ℕ
  -- what the EL3 monitor answers to a call
  pub monitor_call : Event → ℕ

-- What the monitor relies on: the address of the granule that an address names is that address,
-- it fits the output address of a translation table entry, and the monitor grants every call.
pub record IsPlatform (plat : Platform) : Type 0 where
  pub there :
      (addr : ℕ)
      → addr % granule_size ≡ 0
      → plat.addr_to_idx addr < plat.max_granules
      → plat.idx_to_addr (plat.addr_to_idx addr) ≡ addr
  pub below :
      (addr : ℕ)
      → addr % granule_size ≡ 0
      → plat.addr_to_idx addr < plat.max_granules
      → addr < 2 ^ 48
  pub granted : (e : Event) → plat.monitor_call e ≡ 0
