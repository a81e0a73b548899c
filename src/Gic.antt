-- ===== src/Gic.antt =====
-- lib/gic/src/gic.c: the virtual interrupts of an execution context, which the host proposes in list
-- registers and the monitor checks.
pub mod Valid
pub mod Saving
use acai_rmm.Common.{
  ℕ, zero, suc, ◌+◌, ◌-◌, ◌*◌, ◌/◌, ◌%◌, ◌^◌, Bool, true, false, not, ◌||◌, ◌&&◌, Option, none,
  some, ltb, leb, ◌==◌, ◌!=◌, if◌then◌else◌, bit_and, bit_or,
}
use acai_rmm.State.{GicCpuState}

-- `struct gic_virt_feature_s`
pub record GicVirtFeature : Type 0 where
  pub nr_lrs : ℕ
  pub nr_aprs : ℕ
  pub pri_res0_mask : ℕ
  pub max_vintid : ℕ
  pub ext_range : Bool

-- The members of `struct rmi_rec_exit` that carry interrupts.
pub record GicExit : Type 0 where
  pub gicv3_lrs : ℕ → ℕ
  pub gicv3_misr : ℕ
  pub gicv3_vmcr : ℕ
  pub gicv3_hcr : ℕ

abbrev pub ich_max_lrs : ℕ
ich_max_lrs = 16

-- `gic_get_virt_features`, from the values of the two registers; `none` is a failed assertion.
unfoldable pub gic_get_virt_features : ℕ → ℕ → Option GicVirtFeature
gic_get_virt_features vtr ctlr =
    let nr_lrs = bit_and vtr 0x1f in
    let nr_pre_bits = bit_and vtr (7 * 2 ^ 26) / 2 ^ 26 + 1 in
    let nr_pri_bits = bit_and vtr (7 * 2 ^ 29) / 2 ^ 29 + 1 in
    if not (ltb nr_lrs ich_max_lrs)
    then none
    else if not (leb 5 nr_pre_bits)
    then none
    else some (record {
      nr_lrs = nr_lrs;
      nr_aprs = 2 ^ (nr_pre_bits - 5) - 1;
      pri_res0_mask = 2 ^ (8 - nr_pri_bits) - 1;
      max_vintid = if bit_and vtr (7 * 2 ^ 23) / 2 ^ 23 == 0 then 2 ^ 16 - 1 else 2 ^ 24 - 1;
      ext_range = bit_and ctlr (2 ^ 19) != 0;
    })

-- Bits 1 to 7 and 14: what the host may set.
abbrev pub ich_hcr_el2_ns_mask : ℕ
ich_hcr_el2_ns_mask = 0x40fe

abbrev pub ich_hcr_el2_eoi_count_mask : ℕ
ich_hcr_el2_eoi_count_mask = (2 ^ 5 - 1) * 2 ^ 27

abbrev pub ich_hcr_el2_en_bit : ℕ
ich_hcr_el2_en_bit = 1

-- The loops copy the registers 0 to `nr_lrs`.
abbrev pub copy_lrs : ℕ → (ℕ → ℕ) → (ℕ → ℕ) → ℕ → ℕ
copy_lrs nr_lrs from onto i = if leb i nr_lrs then from i else onto i

-- The two members of `struct rmi_rec_entry` are arguments.
unfoldable pub gic_copy_state_from_ns : GicVirtFeature → GicCpuState → (ℕ → ℕ) → ℕ → GicCpuState
gic_copy_state_from_ns f st gicv3_lrs gicv3_hcr = record st {
  ich_lr_el2 = copy_lrs f.nr_lrs gicv3_lrs st.ich_lr_el2;
  ich_hcr_el2 =
      bit_or (bit_and st.ich_hcr_el2 (2 ^ 64 - 1 - ich_hcr_el2_ns_mask))
        (bit_and gicv3_hcr ich_hcr_el2_ns_mask);
}

unfoldable pub gic_copy_state_to_ns : GicVirtFeature → GicCpuState → GicExit → GicExit
gic_copy_state_to_ns f st e = record {
  gicv3_lrs = copy_lrs f.nr_lrs st.ich_lr_el2 e.gicv3_lrs;
  gicv3_misr = st.ich_misr_el2;
  gicv3_vmcr = st.ich_vmcr_el2;
  gicv3_hcr = bit_and st.ich_hcr_el2 (bit_or ich_hcr_el2_eoi_count_mask ich_hcr_el2_ns_mask);
}

unfoldable pub is_valid_vintid : GicVirtFeature → ℕ → Bool
is_valid_vintid f intid =
    if leb intid 1019 || (leb 8192 intid && leb intid f.max_vintid)
    then true
    else if f.ext_range
    then (leb 1056 intid && leb intid 1119) || (leb 4096 intid && leb intid 5119)
    else false

-- `EXTRACT(ICH_LR_VINTID, lr)`, and the test of the two state bits.
unfoldable pub lr_vintid : ℕ → ℕ
lr_vintid lr = bit_and lr (2 ^ 32 - 1) / 2 ^ 0

unfoldable pub lr_is_invalid : ℕ → Bool
lr_is_invalid lr = bit_and lr (3 * 2 ^ 62) == 0 * 2 ^ 62

-- The four tests of one list register.
unfoldable pub lr_is_refused : GicVirtFeature → ℕ → Bool
unfolding is_valid_vintid lr_vintid
lr_is_refused f lr =
    bit_and (lr / 2 ^ 61) 1 != 0
    || bit_and (bit_and lr (0xff * 2 ^ 48) / 2 ^ 48) f.pri_res0_mask != 0
    || bit_and (bit_and lr ((2 ^ 13 - 1) * 2 ^ 32)) (2 ^ 64 - 1 - 2 ^ 41) != 0
    || not (is_valid_vintid f (lr_vintid lr))

-- The inner loop from register `j` on, with `k` rounds left: a register with the same interrupt.
unfoldable pub has_duplicate : ℕ → ℕ → ℕ → GicCpuState → Bool
unfolding lr_is_invalid lr_vintid
has_duplicate zero j intid st = false
has_duplicate (suc k) j intid st =
    let rest = has_duplicate k (suc j) intid st in
    if lr_is_invalid (st.ich_lr_el2 j)
    then rest
    else if intid == lr_vintid (st.ich_lr_el2 j)
    then true
    else rest

-- The outer loop from register `i` on, with `k` rounds left.
unfoldable pub validate_from : ℕ → ℕ → GicVirtFeature → GicCpuState → Bool
unfolding lr_is_refused has_duplicate
validate_from zero i f st = true
validate_from (suc k) i f st =
    let rest = validate_from k (suc i) f st in
    if lr_is_invalid (st.ich_lr_el2 i)
    then rest
    else if lr_is_refused f (st.ich_lr_el2 i)
    then false
    else if has_duplicate k (suc i) (lr_vintid (st.ich_lr_el2 i)) st
    then false
    else rest

unfoldable pub gic_validate_state : GicVirtFeature → GicCpuState → Bool
unfolding validate_from
gic_validate_state f st = validate_from (suc f.nr_lrs) 0 f st

-- The switch over the number of registers falls through to 0; its default is register 0 alone.
abbrev pub copied_by : ℕ → ℕ → ℕ → Bool
copied_by max nr i = if ltb nr max then leb i nr else i == 0

abbrev pub copy_regs : ℕ → ℕ → (ℕ → ℕ) → (ℕ → ℕ) → ℕ → ℕ
copy_regs max nr from onto i = if copied_by max nr i then from i else onto i

unfoldable pub gic_restore_state : GicVirtFeature → GicCpuState → GicCpuState → GicCpuState
gic_restore_state f st cpu = record cpu {
  ich_ap0r_el2 = copy_regs 4 f.nr_aprs st.ich_ap0r_el2 cpu.ich_ap0r_el2;
  ich_ap1r_el2 = copy_regs 4 f.nr_aprs st.ich_ap1r_el2 cpu.ich_ap1r_el2;
  ich_lr_el2 = copy_regs ich_max_lrs f.nr_lrs st.ich_lr_el2 cpu.ich_lr_el2;
  ich_vmcr_el2 = st.ich_vmcr_el2;
  ich_hcr_el2 = st.ich_hcr_el2;
}

-- The saved state, and the registers of the processor, of which one is written.
unfoldable pub gic_save_state :
    GicVirtFeature → GicCpuState → GicCpuState → GicCpuState × GicCpuState
gic_save_state f st cpu = (
  record {
    ich_ap0r_el2 = copy_regs 4 f.nr_aprs cpu.ich_ap0r_el2 st.ich_ap0r_el2;
    ich_ap1r_el2 = copy_regs 4 f.nr_aprs cpu.ich_ap1r_el2 st.ich_ap1r_el2;
    ich_lr_el2 = copy_regs ich_max_lrs f.nr_lrs cpu.ich_lr_el2 st.ich_lr_el2;
    ich_vmcr_el2 = cpu.ich_vmcr_el2;
    ich_hcr_el2 = cpu.ich_hcr_el2;
    ich_misr_el2 = cpu.ich_misr_el2;
  },
  record cpu { ich_hcr_el2 = bit_and cpu.ich_hcr_el2 (2 ^ 64 - 1 - ich_hcr_el2_en_bit) },
)
