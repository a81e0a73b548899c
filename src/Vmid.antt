-- ===== src/Vmid.antt =====
-- runtime/core/vmid.c: the bitmap of the VMIDs in use, 64 to a word.
pub mod Laws
use acai_rmm.Common.{
  ℕ, ◌-◌, ◌/◌, ◌%◌, ◌^◌, Bool, true, false, not, ltb, leb, ◌!=◌, if◌then◌else◌, bit_and, bit_or,
  update,
}
use acai_rmm.State.{Platform, Rmm, done, Command, pure, ◌>>=◌, ◌>>◌, assert}

abbrev pub bits_per_ul : ℕ
bits_per_ul = 64

unfoldable pub vmid_count : Platform → ℕ
vmid_count plat = if plat.vmid16_present then 2 ^ 16 else 2 ^ 8

-- `1UL << bit`: the source passes the VMID itself, and the processor shifts modulo 64.
unfoldable pub vmid_mask : ℕ → ℕ
vmid_mask bit = 2 ^ (bit % 64)

-- Of lib/arch/include: the old value of the bit is returned.
unfoldable pub atomic_bit_set_acquire_release_64 : ℕ → ℕ → Command Bool
unfolding vmid_mask
atomic_bit_set_acquire_release_64 offset bit s =
    done (bit_and (s.vmids offset) (vmid_mask bit) != 0)
      (record s { vmids = update s.vmids offset (bit_or (s.vmids offset) (vmid_mask bit)) })

unfoldable pub atomic_bit_clear_release_64 : ℕ → ℕ → Command (Unit {0})
unfolding vmid_mask
atomic_bit_clear_release_64 offset bit s = done tt (record s {
  vmids = update s.vmids offset (bit_and (s.vmids offset) (2 ^ 64 - 1 - vmid_mask bit));
})

unfoldable pub vmid_reserve : Platform → ℕ → Command Bool
unfolding vmid_count atomic_bit_set_acquire_release_64
vmid_reserve plat vmid = if leb (vmid_count plat) vmid then pure false else (do
  was_set ← atomic_bit_set_acquire_release_64 (vmid / bits_per_ul) vmid
  pure (not was_set))

unfoldable pub vmid_free : Platform → ℕ → Command (Unit {0})
unfolding vmid_count atomic_bit_clear_release_64
vmid_free plat vmid = do
  assert (ltb vmid (vmid_count plat))
  atomic_bit_clear_release_64 (vmid / bits_per_ul) vmid
