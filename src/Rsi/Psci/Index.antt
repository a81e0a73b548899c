-- ===== src/Rsi/Psci/Index.antt =====
-- lib/realm/include/rec.h: the numbering of the execution contexts by the affinity fields of MPIDR.
use acai_rmm.Common.{
  ℕ, ◌+◌, ◌-◌, ◌*◌, ◌/◌, ◌%◌, ◌^◌, ◌<◌, ◌≡◌, ◌↔◌, true, bit_and, arith, bit_and_cut, bit_and_field,
  bit_and_ones, bit_and_complement, ==_iff,
}
use acai_rmm.Rsi.Psci.{mpidr_mask, mpidr_is_valid, mpidr_to_rec_idx}

-- The register that numbers a context: four bits of the index, then sixteen, then eight.
abbrev pub mpidr_of : ℕ → ℕ
mpidr_of idx = idx % 16 + idx / 16 % 2 ^ 16 * 2 ^ 8 + idx / 2 ^ 20 % 2 ^ 8 * 2 ^ 32

-- The affinity fields in place.
abbrev affinity : ℕ → ℕ
affinity x = x / 2 ^ 32 % 2 ^ 8 * 2 ^ 32 + x % 2 ^ 32 / 2 ^ 8 % 2 ^ 16 * 2 ^ 8 + x % 2 ^ 8 % 2 ^ 4

bit_and-mpidr_mask : (x : ℕ) → bit_and x mpidr_mask ≡ affinity x
bit_and-mpidr_mask x = omega (
  arith,
  bit_and_cut 32 x mpidr_mask,
  bit_and_ones 8 (x / 2 ^ 32),
  bit_and_cut 8 (x % 2 ^ 32) 0xffff0f,
  bit_and_ones 16 (x % 2 ^ 32 / 2 ^ 8),
  bit_and_ones 4 (x % 2 ^ 32 % 2 ^ 8),
)

mpidr_is_valid_iff : (x : ℕ) → x < 2 ^ 64 → (mpidr_is_valid x ≡ true) ↔ (x ≡ affinity x)
unfolding mpidr_is_valid
mpidr_is_valid_iff x h =
    let halves = bit_and_complement 64 x mpidr_mask h (omega arith) in
    let e = bit_and-mpidr_mask x in
    (
      (λ v. omega (arith, halves, e, (==_iff (bit_and x (2 ^ 64 - 1 - mpidr_mask)) 0).0 v)),
      (λ v. (==_iff (bit_and x (2 ^ 64 - 1 - mpidr_mask)) 0).1 (omega (arith, halves, e, v))),
    )

mpidr_to_rec_idx-fields :
    (x : ℕ)
    → mpidr_to_rec_idx x
      ≡ x % 2 ^ 4
        + x / 2 ^ 8 % 2 ^ 8 * 2 ^ 4
        + x / 2 ^ 16 % 2 ^ 8 * 2 ^ 12
        + x / 2 ^ 32 % 2 ^ 8 * 2 ^ 20
unfolding mpidr_to_rec_idx
mpidr_to_rec_idx-fields x =
    omega (arith, bit_and_ones 4 x, bit_and_field 8 8 x, bit_and_field 8 16 x, bit_and_field 8 32 x)

-- The register of a valid 64-bit MPIDR gives an index below 2 ^ 28, from which it is read back: two
-- valid registers never name the same execution context.
pub mpidr_of-mpidr_to_rec_idx :
    (x : ℕ)
    → x < 2 ^ 64
    → mpidr_is_valid x ≡ true
    → (mpidr_to_rec_idx x < 2 ^ 28) × (mpidr_of (mpidr_to_rec_idx x) ≡ x)
mpidr_of-mpidr_to_rec_idx x h v =
    let e = (mpidr_is_valid_iff x h).0 v in
    let f = mpidr_to_rec_idx-fields x in (omega (arith, f), omega (arith, f, e))

-- Every index below 2 ^ 28 is the index of a valid MPIDR.
pub mpidr_to_rec_idx-mpidr_of :
    (idx : ℕ)
    → idx < 2 ^ 28
    → (mpidr_is_valid (mpidr_of idx) ≡ true) × (mpidr_to_rec_idx (mpidr_of idx) ≡ idx)
mpidr_to_rec_idx-mpidr_of idx h = (
  (mpidr_is_valid_iff (mpidr_of idx) (omega arith)).1 (omega arith),
  omega (arith, mpidr_to_rec_idx-fields (mpidr_of idx)),
)
