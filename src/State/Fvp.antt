-- ===== src/State/Fvp.antt =====
-- plat/fvp/src/fvp_granule.c: the granule numbering of the FVP platform, in 64-bit arithmetic.
use acai_rmm.Common.{
  refl, ℕ, ◌+◌, ◌-◌, ◌*◌, ◌/◌, ◌%◌, ◌^◌, ◌<◌, ◌≤◌, List, ◌&&◌, not, true, false, arith, ltb, leb,
  ◌==◌, if◌then◌else◌,
}
use acai_rmm.State.Hardware.{granule_size, Platform, IsPlatform}

abbrev pub dram0_base : ℕ
dram0_base = 0x80000000

abbrev pub dram0_size : ℕ
dram0_size = 0x80000000

-- The guard is written as in the source: an address below the base passes it, and the
-- difference wraps.
unfoldable pub plat_granule_addr_to_idx : ℕ → ℕ
plat_granule_addr_to_idx addr =
    if not (addr % granule_size == 0 && ltb addr (dram0_base + dram0_size)) && leb dram0_base addr
    then 2 ^ 64 - 1
    else (addr + 2 ^ 64 - dram0_base) % 2 ^ 64 / granule_size

-- The source asserts that the index is below the number of granules of the platform.
unfoldable pub plat_granule_idx_to_addr : ℕ → ℕ
plat_granule_idx_to_addr idx = dram0_base + idx * granule_size

-- The platform with room for `n` granules; the digest is the hash library's.
abbrev pub fvp : ℕ → (ℕ → List ℕ → ℕ) → Platform
fvp n hash = record {
  max_granules = n;
  addr_to_idx = plat_granule_addr_to_idx;
  idx_to_addr = plat_granule_idx_to_addr;
  vmid16_present = true;
  lpa2_4k_present = false;
  pa_width = 48;
  hash = hash;
  monitor_call = λ _. 0;
}

-- On FVP, an address with an index below the number of granules, up to 2 ^ 51, lies in DRAM.
pub addr_to_idx_bounds :
    (n addr : ℕ)
    → n ≤ 2 ^ 51
    → plat_granule_addr_to_idx addr < n
    → (dram0_base ≤ addr) × (addr < dram0_base + dram0_size)
unfolding plat_granule_addr_to_idx
addr_to_idx_bounds n addr h lt = ground arith

pub fvp-IsPlatform : (n : ℕ) (hash : ℕ → List ℕ → ℕ) → n ≤ 2 ^ 51 → IsPlatform (fvp n hash)
unfolding plat_granule_addr_to_idx plat_granule_idx_to_addr
fvp-IsPlatform n hash h = record {
  there = λ addr al lt. ground arith;
  below = λ addr al lt. ground (arith, addr_to_idx_bounds n addr);
  granted = λ e. refl;
}
