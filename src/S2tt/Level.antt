-- ===== src/S2tt/Level.antt =====
-- lib/realm/src/s2tt.c: addresses at a level of the walk. A level is the 64-bit pattern of the
-- source's `long`; shifts take their amount modulo 64, as the processor does.
use acai_rmm.Common.{
  ℕ, zero, suc, ◌+◌, ◌-◌, ◌*◌, ◌/◌, ◌%◌, ◌^◌, ◌≤◌, ◌≡◌, Bool, bit_and, ◌==◌, arith, true, refl,
}
use acai_rmm.Common.{bit_and_field, bit_and_ones, ◌<◌, ◌↔◌}

abbrev pub granule_shift : ℕ
granule_shift = 12

abbrev pub rtt_page_level : ℕ
rtt_page_level = 3

abbrev pub rtt_min_block_level : ℕ
rtt_min_block_level = 2

abbrev pub min_starting_level : ℕ
min_starting_level = 0

abbrev pub s2tte_stride : ℕ
s2tte_stride = granule_shift - 3

abbrev pub s2ttes_per_s2tt : ℕ
s2ttes_per_s2tt = 2 ^ s2tte_stride

abbrev pub s2tte_oa_bits : ℕ
s2tte_oa_bits = 48

-- `levels * S2TTE_STRIDE + GRANULE_SHIFT` in 32 bits, for `levels = RTT_PAGE_LEVEL - level`.
unfoldable pub level_lsb : ℕ → ℕ
level_lsb level =
    ((rtt_page_level + 2 ^ 64 - level) % 2 ^ 32 * s2tte_stride + granule_shift) % 2 ^ 32

-- `1UL << lsb`, `addr >> lsb`
unfoldable pub shift_left : ℕ → ℕ → ℕ
shift_left x amount = x * 2 ^ (amount % 64) % 2 ^ 64

unfoldable pub shift_right : ℕ → ℕ → ℕ
shift_right x amount = x / 2 ^ (amount % 64)

unfoldable pub bit_mask_ull : ℕ → ℕ → ℕ
unfolding shift_left shift_right
bit_mask_ull msb lsb = bit_and (shift_right (2 ^ 64 - 1) (63 - msb)) (shift_left (2 ^ 64 - 1) lsb)

unfoldable pub addr_level_mask : ℕ → ℕ → ℕ
unfolding bit_mask_ull level_lsb
addr_level_mask addr level = bit_and addr (bit_mask_ull (s2tte_oa_bits - 1) (level_lsb level))

unfoldable pub s2_addr_to_idx : ℕ → ℕ → ℕ
unfolding shift_right level_lsb
s2_addr_to_idx addr level = bit_and (shift_right addr (level_lsb level)) (2 ^ s2tte_stride - 1)

unfoldable pub s2_sl_addr_to_idx : ℕ → ℕ → ℕ → ℕ
unfolding shift_left shift_right level_lsb
s2_sl_addr_to_idx addr start_level ipa_bits =
    shift_right (bit_and addr (shift_left 1 ipa_bits - 1)) (level_lsb start_level)

-- The source asserts that the level is at most 3: its callers have compared it with
-- `RTT_PAGE_LEVEL`, and the assertion is left out.
unfoldable pub s2tte_map_size : ℕ → ℕ
unfolding shift_left level_lsb
s2tte_map_size level = shift_left 1 (level_lsb level)

unfoldable pub addr_is_level_aligned : ℕ → ℕ → Bool
unfolding addr_level_mask
addr_is_level_aligned addr level = addr == addr_level_mask addr level

-- The level as a number of address bits below it.
abbrev pub lsb : ℕ → ℕ
lsb level = (3 - level) * 9 + 12

-- A map of one level covers `2 ^ lsb` bytes.
pub s2tte_map_size-level : (level : ℕ) → level ≤ 3 → s2tte_map_size level ≡ 2 ^ lsb level
unfolding s2tte_map_size
s2tte_map_size-level zero h = refl
s2tte_map_size-level (suc zero) h = refl
s2tte_map_size-level (suc (suc zero)) h = refl
s2tte_map_size-level (suc (suc (suc zero))) h = refl
s2tte_map_size-level (suc (suc (suc (suc n)))) h = absurd (omega arith)

-- The mask keeps the bits of the output address from `lsb` on.
pub addr_level_mask-level :
    (addr level : ℕ)
    → level ≤ 3
    → addr_level_mask addr level ≡ addr / 2 ^ lsb level % 2 ^ (48 - lsb level) * 2 ^ lsb level
unfolding addr_level_mask
addr_level_mask-level addr zero h = bit_and_field 9 39 addr
addr_level_mask-level addr (suc zero) h = bit_and_field 18 30 addr
addr_level_mask-level addr (suc (suc zero)) h = bit_and_field 27 21 addr
addr_level_mask-level addr (suc (suc (suc zero))) h = bit_and_field 36 12 addr
addr_level_mask-level addr (suc (suc (suc (suc n)))) h = absurd (omega arith)

-- `addr_is_level_aligned`, at a level up to 3, holds exactly for the multiples of the map size of the
-- level below 2 ^ 48.
pub addr_is_level_aligned_iff :
    (addr level : ℕ)
    → level ≤ 3
    → (addr_is_level_aligned addr level ≡ true)
      ↔ ((addr % s2tte_map_size level ≡ 0) × (addr < 2 ^ 48))
unfolding addr_is_level_aligned s2tte_map_size
addr_is_level_aligned_iff addr zero h = ground (arith, addr_level_mask-level addr 0 h)
addr_is_level_aligned_iff addr (suc zero) h = ground (arith, addr_level_mask-level addr 1 h)
addr_is_level_aligned_iff addr (suc (suc zero)) h = ground (arith, addr_level_mask-level addr 2 h)
addr_is_level_aligned_iff addr (suc (suc (suc zero))) h =
    ground (arith, addr_level_mask-level addr 3 h)
addr_is_level_aligned_iff addr (suc (suc (suc (suc n)))) h = absurd (omega arith)

-- `s2_addr_to_idx`, at a level up to 3, is the number of the map of that level modulo the 512 entries
-- of a table.
pub s2_addr_to_idx-level :
    (addr level : ℕ)
    → level ≤ 3
    → s2_addr_to_idx addr level ≡ addr / s2tte_map_size level % s2ttes_per_s2tt
unfolding s2_addr_to_idx s2tte_map_size
s2_addr_to_idx-level addr zero h = bit_and_ones 9 _
s2_addr_to_idx-level addr (suc zero) h = bit_and_ones 9 _
s2_addr_to_idx-level addr (suc (suc zero)) h = bit_and_ones 9 _
s2_addr_to_idx-level addr (suc (suc (suc zero))) h = bit_and_ones 9 _
s2_addr_to_idx-level addr (suc (suc (suc (suc n)))) h = absurd (omega arith)
