-- ===== src/Rmi/Rtt/Ripas/Laws.antt =====
-- runtime/rmi/rtt.c, `update_ripas`: what happens to an unassigned entry.
use acai_rmm.Common.{
  ℕ, ◌/◌, ◌%◌, ◌^◌, ◌<◌, ◌≡◌, refl, ap, ◌∙◌, Bool-cases, inl, inr, true, false, some, bit_and,
  bit_or, bit_or-zero, bit_and-bit_or, arith, ◌==◌,
}
use acai_rmm.State.{Rmm, done}
use acai_rmm.S2tt.Entry.{
  desc_type_mask, hipas_mask, s2tte_ns, ripas_mask, ripas_ram, rmi_empty, rmi_ram,
  s2tte_is_unassigned, s2tte_is_valid, s2tte_is_table, s2tte_create_ripas, s2tte_get_ripas,
}
use acai_rmm.S2tt.Classes.{fields}
use acai_rmm.Rmi.Rtt.Ripas.{update_ripas}

-- An unassigned entry is neither a table nor valid.
other_kinds :
    (x level : ℕ)
    → s2tte_is_unassigned x ≡ true
    → (s2tte_is_table x level ≡ false) × (s2tte_is_valid x level ≡ false)
unfolding s2tte_is_unassigned s2tte_is_table s2tte_is_valid
other_kinds x level h = (ground (arith, fields x, h), ground (arith, fields x, h))

-- `update_ripas` with EMPTY leaves an unassigned entry as it is, at any level: an entry that is RAM
-- stays RAM.
pub update_ripas-empty-unassigned :
    (x level : ℕ) (s : Rmm)
    → s2tte_is_unassigned x ≡ true
    → update_ripas x level rmi_empty s ≡ done (some x) s
unfolding update_ripas s2tte_create_ripas
update_ripas-empty-unassigned x level s h = ground (arith, other_kinds x level h, h, bit_or-zero x)

-- A mask without bit 6 does not see that bit.
masked : (x m : ℕ) → x < 2 ^ 64 → bit_and (2 ^ 6) m ≡ 0 → bit_and (bit_or x (2 ^ 6)) m ≡ bit_and x m
masked x m lt h =
    bit_and-bit_or 64 x (2 ^ 6) m lt (omega arith)
    ∙ ap (bit_or (bit_and x m)) h
    ∙ bit_or-zero (bit_and x m)

-- Bit 6 is set afterwards.
ripas_set : (x : ℕ) → x < 2 ^ 64 → bit_and (bit_or x (2 ^ 6)) ripas_mask ≡ ripas_ram
ripas_set x lt =
    let e = bit_and-bit_or 64 x (2 ^ 6) ripas_mask lt (omega arith) in
    elim (Bool-cases (x / 2 ^ 6 % 2 ^ 1 == 0)) [
      | inl z ↦
          let clear : bit_and x ripas_mask ≡ 0 = ground (arith, (fields x).ripas_bit, z) in
          e ∙ rw clear refl
      | inr z ↦
          let full : bit_and x ripas_mask ≡ 64 = ground (arith, (fields x).ripas_bit, z) in
          e ∙ rw full refl
    ]

-- `update_ripas` with RAM succeeds on an unassigned entry of 64 bits, at any level: the new entry is
-- unassigned, and its RIPAS reads back as RAM.
pub update_ripas-ram-unassigned :
    (x level : ℕ) (s : Rmm)
    → x < 2 ^ 64
    → s2tte_is_unassigned x ≡ true
    → (y : ℕ) × (update_ripas x level rmi_ram s ≡ done (some y) s)
      × (s2tte_is_unassigned y ≡ true)
      × (s2tte_get_ripas y s ≡ done rmi_ram s)
unfolding update_ripas s2tte_create_ripas s2tte_is_unassigned s2tte_get_ripas
update_ripas-ram-unassigned x level s lt h = (
  bit_or x (2 ^ 6),
  ground (arith, other_kinds x level h, h),
  ground (
    arith,
    h,
    masked x desc_type_mask lt refl,
    masked x hipas_mask lt refl,
    masked x s2tte_ns lt refl,
  ),
  ground (arith, ripas_set x lt),
)
