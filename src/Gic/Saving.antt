-- ===== src/Gic/Saving.antt =====
-- lib/gic/src/gic.c: the state that a processor is given comes back when it is saved.
use acai_rmm.Common.{
  ℕ, ◌-◌, ◌%◌, ◌^◌, ◌≤◌, ◌<◌, ◌≡◌, refl, true, arith, some, bit_and, bit_and_cut, bit_and-zero,
}
use acai_rmm.State.{GicCpuState}
use acai_rmm.Gic.{
  GicVirtFeature, ich_max_lrs, copied_by, gic_get_virt_features, gic_restore_state, gic_save_state,
}

-- The features that were read have fewer than 16 list registers.
nr_lrs-bounds :
    (vtr ctlr : ℕ) (f : GicVirtFeature)
    → gic_get_virt_features vtr ctlr ≡ some f
    → f.nr_lrs < ich_max_lrs
unfolding gic_get_virt_features
nr_lrs-bounds vtr ctlr f h = ground (arith, h)

copied : (max nr i : ℕ) → nr < max → i ≤ nr → copied_by max nr i ≡ true
copied max nr i lt le = ground (arith, lt, le)

-- Clearing the bit EN leaves an even number.
disabled : (x : ℕ) → bit_and x (2 ^ 64 - 1 - 1) % 2 ≡ 0
disabled x = omega (arith, bit_and_cut 1 x (2 ^ 64 - 1 - 1), bit_and-zero (x % 2))

-- With the features that the registers of the processor report, saving after a restore gives back
-- every list register that exists, ICH_HCR_EL2 and ICH_VMCR_EL2, whatever
-- the processor and the saved state held before, and disables the interface of the processor.
pub gic_save_state-restore :
    (vtr ctlr : ℕ) (f : GicVirtFeature) (st old cpu : GicCpuState)
    → gic_get_virt_features vtr ctlr ≡ some f
    → ((i : ℕ)
        → i ≤ f.nr_lrs
        → (gic_save_state f old (gic_restore_state f st cpu)).0.ich_lr_el2 i ≡ st.ich_lr_el2 i)
      × ((gic_save_state f old (gic_restore_state f st cpu)).0.ich_hcr_el2 ≡ st.ich_hcr_el2)
      × ((gic_save_state f old (gic_restore_state f st cpu)).0.ich_vmcr_el2 ≡ st.ich_vmcr_el2)
      × ((gic_save_state f old (gic_restore_state f st cpu)).1.ich_hcr_el2 % 2 ≡ 0)
unfolding gic_save_state gic_restore_state
gic_save_state-restore vtr ctlr f st old cpu h = (
  (λ i le. ground (arith, copied ich_max_lrs f.nr_lrs i (nr_lrs-bounds vtr ctlr f h) le)),
  refl,
  refl,
  disabled st.ich_hcr_el2,
)
