-- ===== src/S2tt/Classes.antt =====
-- lib/realm/src/s2tt.c: an entry is of one kind at most, and what is written is read back.
use acai_rmm.Common.{
  ℕ, ◌+◌, ◌*◌, ◌/◌, ◌%◌, ◌^◌, ◌≤◌, ◌<◌, ◌≡◌, Bool, bit_and, bit_or, arith, bit_and_field,
  bit_and_ones, bit_or_sum, if◌then◌else◌,
}
use acai_rmm.S2tt.Entry.{
  desc_type_mask, hipas_mask, ripas_mask, s2tte_ns, s2tte_is_unassigned, s2tte_is_destroyed,
  s2tte_is_assigned, s2tte_is_valid, s2tte_is_valid_ns, s2tte_is_table,
}

-- The fields of an entry as arithmetic.
pub record Fields (x : ℕ) : Type 0 where
  pub type_bits : bit_and x desc_type_mask ≡ x % 4
  pub hipas_bits : bit_and x hipas_mask ≡ x / 2 ^ 2 % 2 ^ 4 * 2 ^ 2
  pub ripas_bit : bit_and x ripas_mask ≡ x / 2 ^ 6 % 2 ^ 1 * 2 ^ 6
  pub ns_bit : bit_and x s2tte_ns ≡ x / 2 ^ 55 % 2 ^ 1 * 2 ^ 55

pub fields : (x : ℕ) → Fields x
fields x = record {
  type_bits = bit_and_ones 2 x;
  hipas_bits = bit_and_field 4 2 x;
  ripas_bit = bit_and_field 1 6 x;
  ns_bit = bit_and_field 1 55 x;
}

-- Attributes below bit 12 are added to an aligned address.
pub bit_or_attrs : (pa attrs : ℕ) → pa % 2 ^ 12 ≡ 0 → attrs < 2 ^ 12 → bit_or pa attrs ≡ pa + attrs
bit_or_attrs pa attrs h lt = ground (arith, bit_or_sum 12 (pa / 2 ^ 12) attrs)

abbrev pub one_if : Bool → ℕ
one_if b = if b then 1 else 0

-- How many of the six kinds an entry is of.
abbrev pub kinds : ℕ → ℕ → ℕ
kinds x level =
    one_if (s2tte_is_unassigned x)
    + one_if (s2tte_is_destroyed x)
    + one_if (s2tte_is_assigned x level)
    + one_if (s2tte_is_valid x level)
    + one_if (s2tte_is_valid_ns x level)
    + one_if (s2tte_is_table x level)

-- An entry, at any level, is of at most one of the six kinds.
pub kinds-le-one : (x level : ℕ) → kinds x level ≤ 1
unfolding s2tte_is_unassigned s2tte_is_destroyed s2tte_is_assigned s2tte_is_valid s2tte_is_valid_ns
    s2tte_is_table
kinds-le-one x level = ground (arith, fields x)
