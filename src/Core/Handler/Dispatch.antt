-- ===== src/Core/Handler/Dispatch.antt =====
-- runtime/core/handler.c: which function identifiers reach a handler.
use acai_rmm.Common.{
  ℕ, ◌-◌, ◌*◌, ◌/◌, ◌%◌, ◌^◌, ◌≡◌, refl, arith, bit_and, true, none, leb, ltb, ◌&&◌, if◌then◌else◌,
  bit_and_field, bit_and_ones, Bool-cases, inl, inr,
}
use acai_rmm.Core.Smc.{smc_fnum, is_smc64_rmi_fid, is_smc64_fid_std_fast, fnum_in_range}
use acai_rmm.Core.Handler.{smc_handlers, entry_at, handler_of}

fid_bits :
    (fid : ℕ)
    → (bit_and fid 0xffff0000 ≡ fid / 2 ^ 16 % 2 ^ 16 * 2 ^ 16)
      × (bit_and fid 0xffff ≡ fid % 2 ^ 16)
fid_bits fid = (bit_and_field 16 16 fid, bit_and_ones 16 fid)

in_rmi_range :
    (fid : ℕ)
    → is_smc64_rmi_fid fid ≡ (leb 0xc4000150 (fid % 2 ^ 32) && leb (fid % 2 ^ 32) 0xc4000169)
unfolding is_smc64_rmi_fid is_smc64_fid_std_fast fnum_in_range smc_fnum
in_rmi_range fid = rw ((fid_bits fid).0, (fid_bits fid).1) (ground arith)

-- The handler of an identifier depends on its low 32 bits alone: it is the entry of the table at
-- their distance from 0xc4000150, where they lie between 0xc4000150 and 0xc4000169, and there is none
-- elsewhere.
pub handler_of_lem :
    (fid : ℕ)
    → handler_of fid ≡ (
        if leb 0xc4000150 (fid % 2 ^ 32) && leb (fid % 2 ^ 32) 0xc4000169
        then entry_at (fid % 2 ^ 32 - 0xc4000150) smc_handlers
        else none)
unfolding handler_of smc_fnum
handler_of_lem fid =
    elim (Bool-cases (leb 0xc4000150 (fid % 2 ^ 32) && leb (fid % 2 ^ 32) 0xc4000169)) [
      | inl h ↦
          rw (in_rmi_range fid, h, (fid_bits fid).1)
            (let e : fid % 2 ^ 16 - 0x150 ≡ fid % 2 ^ 32 - 0xc4000150 = ground (arith, h) in
              let b : ltb (fid % 2 ^ 32 - 0xc4000150) 26 ≡ true = ground (arith, h) in
              rw (e, b) refl)
      | inr h ↦ rw (in_rmi_range fid, h) refl
    ]
