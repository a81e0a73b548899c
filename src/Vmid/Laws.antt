-- ===== src/Vmid/Laws.antt =====
-- runtime/core/vmid.c: the bitmap is a set of numbers.
use native.Mathlib.Nat.{one-le-pow}
use acai_rmm.Common.{
  ltb, ◌==◌, ◌&&◌, ◌||◌, not, Bool-cases, inl, inr, bit_or_bit, bit_and_clear_bit, ℕ, ◌-◌, ◌/◌, ◌%◌,
  ◌^◌, ◌<◌, ◌≡◌, Bool, arith, leb, ◌!=◌, bit_and, bit_or, update,
}
use acai_rmm.State.{Platform, Rmm, done}
use acai_rmm.Vmid.{vmid_count, vmid_reserve, vmid_free, bits_per_ul}

-- A VMID is in use: its bit is set.
abbrev pub in_use : Rmm → ℕ → Bool
in_use s vmid = bit_and (s.vmids (vmid / bits_per_ul)) (2 ^ (vmid % 64)) != 0

-- The words of the bitmap are 64 bits wide.
abbrev pub AreWords : Rmm → Type 0
AreWords s = (i : ℕ) → s.vmids i < 2 ^ 64

-- The state after a VMID was freed.
abbrev pub freed_state : ℕ → Rmm → Rmm
freed_state vmid s = record s {
  vmids = update s.vmids (vmid / 64) (bit_and (s.vmids (vmid / 64)) (2 ^ 64 - 1 - 2 ^ (vmid % 64)));
}

module _ (plat : Platform) where
  -- Reserving a VMID succeeds when it is in range and not in use; after it exactly that VMID is
  -- in use besides those that were.
  pub vmid_reserve_lem :
      (vmid : ℕ) (s : Rmm)
      → (t : Rmm) × (vmid_reserve plat vmid s
          ≡ done (ltb vmid (vmid_count plat) && not (in_use s vmid)) t)
        × ((w : ℕ) → in_use t w ≡ (in_use s w || (ltb vmid (vmid_count plat) && vmid == w)))
  unfolding vmid_reserve
  vmid_reserve_lem vmid s = elim (Bool-cases (leb (vmid_count plat) vmid)) [
    | inl e ↦ (s, ground (arith, e), λ w. ground (arith, e))
    | inr e ↦ (
      record s {
        vmids = update s.vmids (vmid / 64) (bit_or (s.vmids (vmid / 64)) (2 ^ (vmid % 64)));
      },
      ground (arith, e),
      λ w.
          ground (
            arith,
            e,
            bit_or_bit (vmid % 64) (w % 64) (s.vmids (vmid / 64)),
            one-le-pow (w % 64) 2,
          ),
    )
  ]

  -- Freeing a VMID in range makes it unused and leaves every other VMID as it was.
  pub vmid_free_lem :
      (vmid : ℕ) (s : Rmm)
      → AreWords s
      → vmid < vmid_count plat
      → (vmid_free plat vmid s ≡ done tt (freed_state vmid s))
        × ((w : ℕ) → in_use (freed_state vmid s) w ≡ (in_use s w && vmid != w))
  unfolding vmid_free
  vmid_free_lem vmid s words h = (
    ground (arith, h),
    λ w. ground (
      arith,
      bit_and_clear_bit 64 (vmid % 64) (w % 64) (s.vmids (vmid / 64)) (omega arith)
          (words (vmid / 64)),
    ),
  )
