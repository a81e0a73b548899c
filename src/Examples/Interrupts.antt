-- ===== src/Examples/Interrupts.antt =====
-- Runs of the checks and copies of virtual interrupts.
use acai_rmm.Common.{
  ℕ, ◌+◌, ◌-◌, ◌*◌, ◌%◌, ◌^◌, ◌≤◌, ◌<◌, ◌≡◌, ◌≢◌, ◌↔◌, refl, true, false, ◌==◌, if◌then◌else◌,
}
use acai_rmm.State.{GicCpuState}
use acai_rmm.Gic.{
  GicVirtFeature, gic_get_virt_features, gic_validate_state, lr_vintid, lr_is_refused,
  gic_restore_state, gic_save_state,
}
use acai_rmm.Gic.Valid.{InUse, gic_validate_state_iff}
use acai_rmm.Gic.Saving.{gic_save_state-restore}

-- Four list registers, 5 bits of priority and 16 bits of interrupt numbers.
abbrev vtr : ℕ
vtr = 4 * 2 ^ 29 + 4 * 2 ^ 26 + 3

abbrev features : GicVirtFeature
features = record {
  nr_lrs = 3;
  nr_aprs = 0;
  pri_res0_mask = 7;
  max_vintid = 2 ^ 16 - 1;
  ext_range = false;
}

-- Interrupt 27 is pending in register 0.
abbrev state : GicCpuState
state = record {
  ich_ap0r_el2 = λ _. 0;
  ich_ap1r_el2 = λ _. 0;
  ich_vmcr_el2 = 0;
  ich_hcr_el2 = 1;
  ich_lr_el2 = λ i. if i == 0 then 2 ^ 62 + 27 else 0;
  ich_misr_el2 = 0;
}

abbrev empty : GicCpuState
empty = record state { ich_lr_el2 = λ _. 0 }

gic_validate_state_iff_example : (gic_validate_state features state ≡ true) ↔ (
    ((l : ℕ) → l ≤ 3 → InUse features state l → lr_is_refused features (state.ich_lr_el2 l) ≡ false)
    × ((l m : ℕ)
        → l < m
        → m ≤ 3
        → InUse features state l
        → InUse features state m
        → lr_vintid (state.ich_lr_el2 l) ≢ lr_vintid (state.ich_lr_el2 m)))
gic_validate_state_iff_example = gic_validate_state_iff features state

gic_save_state-restore_example :
    ((i : ℕ)
      → i ≤ 3
      → (gic_save_state features empty (gic_restore_state features state empty)).0.ich_lr_el2 i
        ≡ state.ich_lr_el2 i)
    × ((gic_save_state features empty (gic_restore_state features state empty)).0.ich_hcr_el2 ≡ 1)
    × ((gic_save_state features empty (gic_restore_state features state empty)).0.ich_vmcr_el2 ≡ 0)
    × ((gic_save_state features empty (gic_restore_state features state empty)).1.ich_hcr_el2 % 2
        ≡ 0)
unfolding gic_get_virt_features
gic_save_state-restore_example = gic_save_state-restore vtr 0 features state empty empty refl
