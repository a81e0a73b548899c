-- ===== src/Rmi/Run/Completion/Emulated.antt =====
-- runtime/rmi/run.c: the load that the host emulates for a realm.
use acai_rmm.Common.{
  ℕ, ◌+◌, ◌-◌, ◌*◌, ◌%◌, ◌^◌, ◌<◌, ◌≤◌, ◌≡◌, refl, arith, bit_and, true, false, not, leb, ltb, ◌&&◌,
  ◌==◌, ◌!=◌, ◌⊎◌, if◌then◌else◌, bit_and_field, bit_and_ones, Bool, Bool-cases, inl, inr, ap, sym,
  update,
}
use native.Mathlib.Nat.{one-le-pow}
use acai_rmm.State.{Rmm, Rec, done}
use acai_rmm.Core.Esr.{
  esr_srt, esr_is_write, esr_sign_extend, esr_sixty_four, esr_sas, access_len, access_mask,
  esr_el2_ec_mask, esr_el2_ec_data_abort, esr_el2_abort_isv_bit,
}
use acai_rmm.Rmi.Run.Completion.{
  RecEntry, rec_entry_flag_emul_mmio, sign_extended, mmio_value, complete_mmio_emulation,
}

sas_lt : (esr : ℕ) → esr_sas esr < 4
unfolding esr_sas
sas_lt esr = rw (bit_and_field 2 22 esr) (omega arith)

sas-cases :
    (esr : ℕ) → (esr_sas esr ≡ 0) ⊎ ((esr_sas esr ≡ 1) ⊎ ((esr_sas esr ≡ 2) ⊎ (esr_sas esr ≡ 3)))
sas-cases esr = ground (arith, sas_lt esr)

-- The value of a load of `bits` bits: the low bits of what the host gives and, where the load
-- extends the sign, `width` bits of the two's complement of that number.
abbrev pub loaded : Bool → Bool → ℕ → ℕ → ℕ
loaded extend sixty_four bits gpr =
    if extend
    then (if leb (2 ^ (bits - 1)) (gpr % 2 ^ bits)
        then gpr % 2 ^ bits + 2 ^ 64 - 2 ^ bits
        else gpr % 2 ^ bits)
      % (if sixty_four then 2 ^ 64 else 2 ^ 32)
    else gpr % 2 ^ bits

flip :
    (h v : ℕ)
    → h ≤ 2 ^ 63
    → v < h + h
    → ((if ltb v h then v + h else v - h) + 2 ^ 64 - h) % 2 ^ 64
      ≡ (if leb h v then v + 2 ^ 64 - (h + h) else v)
flip h v le lt = ground arith

wrapped :
    (h p v : ℕ)
    → h + h ≡ p
    → h ≤ 2 ^ 63
    → v < p
    → (if leb h v then v + 2 ^ 64 - p else v) % 2 ^ 64 ≡ (if leb h v then v + 2 ^ 64 - p else v)
wrapped h p v e le lt = ground arith

sign_extended_lem :
    (bits v : ℕ)
    → 2 ^ (bits - 1) + 2 ^ (bits - 1) ≡ 2 ^ bits
    → 2 ^ (bits - 1) ≤ 2 ^ 63
    → v < 2 ^ bits
    → sign_extended bits v ≡ (if leb (2 ^ (bits - 1)) v then v + 2 ^ 64 - 2 ^ bits else v)
unfolding sign_extended
sign_extended_lem bits v e le lt = rw (← e) (flip (2 ^ (bits - 1)) v le (omega arith))

module _ (esr gpr : ℕ) (s : Rmm) where
  load :
      (len : ℕ)
      → access_len esr s ≡ done len s
      → access_mask esr s ≡ done (2 ^ (len * 8) - 1) s
      → 2 ^ (len * 8 - 1) + 2 ^ (len * 8 - 1) ≡ 2 ^ (len * 8)
      → 2 ^ (len * 8 - 1) ≤ 2 ^ 63
      → mmio_value esr gpr s
        ≡ done (loaded (esr_sign_extend esr) (esr_sixty_four esr) (len * 8) gpr) s
  unfolding mmio_value
  load len l m e le =
      let v : gpr % 2 ^ (len * 8) < 2 ^ (len * 8) = omega (arith, one-le-pow (len * 8) 2) in
      let x = sign_extended_lem (len * 8) (gpr % 2 ^ (len * 8)) e le v in
      rw (m, bit_and_ones (len * 8) gpr)
        (elim (Bool-cases (esr_sign_extend esr)) [
          | inl h ↦
              rw (h, l, x)
                (elim (Bool-cases (esr_sixty_four esr)) [
                  | inl k ↦ rw k (
                      ap (λ (y : ℕ). done y s)
                        (sym (
                          wrapped (2 ^ (len * 8 - 1)) (2 ^ (len * 8)) (gpr % 2 ^ (len * 8)) e le
                            v)))
                  | inr k ↦ rw k (
                      ap (λ (y : ℕ). done y s)
                        (bit_and_ones 32 (
                          if leb (2 ^ (len * 8 - 1)) (gpr % 2 ^ (len * 8))
                          then gpr % 2 ^ (len * 8) + 2 ^ 64 - 2 ^ (len * 8)
                          else gpr % 2 ^ (len * 8))))
                ])
          | inr h ↦ rw h refl
        ])

-- The number of bytes of an access, by the size field of the syndrome.
abbrev pub size_of : ℕ → ℕ
size_of sas = if sas == 0 then 1 else if sas == 1 then 2 else if sas == 2 then 4 else 8

mmio_value_lem :
    (esr gpr : ℕ) (s : Rmm)
    → mmio_value esr gpr s
      ≡ done (loaded (esr_sign_extend esr) (esr_sixty_four esr) (size_of (esr_sas esr) * 8) gpr) s
unfolding access_len access_mask
mmio_value_lem esr gpr s = by_size (sas-cases esr)
  where
    by_size :
        (esr_sas esr ≡ 0) ⊎ ((esr_sas esr ≡ 1) ⊎ ((esr_sas esr ≡ 2) ⊎ (esr_sas esr ≡ 3)))
        → mmio_value esr gpr s
          ≡ done
              (loaded (esr_sign_extend esr) (esr_sixty_four esr) (size_of (esr_sas esr) * 8) gpr)
              s
    by_size (inl h) = rw h (load esr gpr s 1 (rw h refl) (rw h refl) (omega arith) (omega arith))
    by_size (inr (inl h)) =
        rw h (load esr gpr s 2 (rw h refl) (rw h refl) (omega arith) (omega arith))
    by_size (inr (inr (inl h))) =
        rw h (load esr gpr s 4 (rw h refl) (rw h refl) (omega arith) (omega arith))
    by_size (inr (inr (inr h))) =
        rw h (load esr gpr s 8 (rw h refl) (rw h refl) (omega arith) (omega arith))

-- What the completion comes to, for the context `r` and what the host answers.
abbrev pub completed : Rec → RecEntry → Rec
completed r entry = record r {
  regs =
      if not (esr_is_write r.last_run_info.esr) && esr_srt r.last_run_info.esr != 31
      then update r.regs (esr_srt r.last_run_info.esr) (
          loaded (esr_sign_extend r.last_run_info.esr) (esr_sixty_four r.last_run_info.esr)
            (size_of (esr_sas r.last_run_info.esr) * 8) (entry.gprs 0))
      else r.regs;
  pc = (r.pc + 4) % 2 ^ 64;
}

abbrev pub can_be_emulated : ℕ → Bool
can_be_emulated esr =
    bit_and esr esr_el2_ec_mask == esr_el2_ec_data_abort && bit_and esr esr_el2_abort_isv_bit != 0

-- The completion returns in every case. Without the flag nothing happens; with it, the entry is
-- refused when the last exit was no data abort with a valid syndrome. Otherwise the program counter
-- moves on by one instruction and, for a load to a register, the register gets the number of the
-- host, cut to the size of the access and, where the load says so, extended with its sign to 32 or
-- 64 bits.
pub complete_mmio_emulation_lem :
    (g : ℕ) (entry : RecEntry) (s : Rmm)
    → complete_mmio_emulation g entry s ≡ (
        if bit_and entry.flags rec_entry_flag_emul_mmio == 0
        then done true s
        else if not (can_be_emulated (s.recs g).last_run_info.esr)
        then done false s
        else done true (record s { recs = update s.recs g (completed (s.recs g) entry) }))
unfolding complete_mmio_emulation
complete_mmio_emulation_lem g entry s =
    ground (arith, mmio_value_lem (s.recs g).last_run_info.esr (entry.gprs 0) s)
