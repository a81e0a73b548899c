-- ===== src/S2tt/Codec.antt =====
-- lib/realm/src/s2tt.c: what the functions that make an entry put in, those that read it give back.
use acai_rmm.Common.{ℕ, zero, suc, ◌+◌, ◌%◌, ◌^◌, ◌≤◌, ◌<◌, ◌≡◌, true, false, arith, bit_or-zero}
use acai_rmm.State.{Rmm, done}
use acai_rmm.S2tt.Level.{
  addr_level_mask, addr_level_mask-level, addr_is_level_aligned, addr_is_level_aligned_iff,
  s2tte_map_size-level, lsb,
}
use acai_rmm.Granule.Find.{granule_aligned}
use acai_rmm.S2tt.Entry.{
  s2tte_is_unassigned, s2tte_is_destroyed, s2tte_is_assigned, s2tte_is_valid, s2tte_is_valid_ns,
  s2tte_is_table, s2tte_create_assigned_empty, s2tte_create_valid, s2tte_create_table,
  s2tte_get_ripas, s2tte_pa, s2tte_pa_table, rmi_empty, rmi_ram, s2tte_page, s2tte_block,
  table_entry_to_phys, entry_is_table,
}
use acai_rmm.S2tt.Classes.{fields, bit_or_attrs}

-- An output address at a level that maps memory.
pub record IsOutput (pa level : ℕ) : Type 0 where
  pub from_block : 2 ≤ level
  pub to_page : level ≤ 3
  pub aligned : addr_is_level_aligned pa level ≡ true

-- Its bits, at the two levels.
pub output_bits :
    (pa level : ℕ)
    → IsOutput pa level
    → (pa % 2 ^ lsb level ≡ 0) × (pa < 2 ^ 48) × (pa % 2 ^ 12 ≡ 0)
output_bits pa zero o = absurd (omega (arith, o.from_block))
output_bits pa (suc zero) o = absurd (omega (arith, o.from_block))
output_bits pa (suc (suc zero)) o = ground (
  arith,
  addr_is_level_aligned_iff pa 2 (omega arith),
  s2tte_map_size-level 2 (omega arith),
  o.aligned,
)
output_bits pa (suc (suc (suc zero))) o = ground (
  arith,
  addr_is_level_aligned_iff pa 3 (omega arith),
  s2tte_map_size-level 3 (omega arith),
  o.aligned,
)
output_bits pa (suc (suc (suc (suc n)))) o = absurd (omega (arith, o.to_page))

-- Attributes below bit 12 do not disturb the output address.
pub mask-attrs :
    (pa attrs level : ℕ)
    → IsOutput pa level
    → attrs < 2 ^ 12
    → addr_level_mask (pa + attrs) level ≡ pa
mask-attrs pa attrs zero o h = absurd (omega (arith, o.from_block))
mask-attrs pa attrs (suc zero) o h = absurd (omega (arith, o.from_block))
mask-attrs pa attrs (suc (suc zero)) o h =
    omega (arith, output_bits pa 2 o, addr_level_mask-level (pa + attrs) 2 (omega arith))
mask-attrs pa attrs (suc (suc (suc zero))) o h =
    omega (arith, output_bits pa 3 o, addr_level_mask-level (pa + attrs) 3 (omega arith))
mask-attrs pa attrs (suc (suc (suc (suc n)))) o h = absurd (omega (arith, o.to_page))

-- The assigned entry of an output address, written out.
pub assigned_empty-entry :
    (pa level : ℕ) (s : Rmm)
    → IsOutput pa level
    → (s2tte_create_assigned_empty pa level s ≡ done (pa + 4) s)
      × (s2tte_is_assigned (pa + 4) level ≡ true)
      × (s2tte_pa (pa + 4) level s ≡ done pa s)
      × (s2tte_get_ripas (pa + 4) s ≡ done rmi_empty s)
unfolding s2tte_create_assigned_empty s2tte_is_assigned s2tte_pa s2tte_get_ripas s2tte_is_unassigned
    s2tte_is_destroyed s2tte_is_table
assigned_empty-entry pa level s o =
    let b = output_bits pa level o in
    let m = mask-attrs pa 4 level o (omega arith) in
    let f = fields (pa + 4) in
    (
      ground (arith, b, o.from_block, o.aligned, bit_or_attrs pa 4, bit_or-zero (pa + 4)),
      ground (arith, b, f),
      ground (arith, b, f, m),
      ground (arith, b, f),
    )

-- `s2tte_create_assigned_empty`, for an aligned output address at level 2 or 3, makes an entry
-- without a fault; it is assigned, and its address and the RIPAS EMPTY are read back.
pub assigned_empty-roundtrip :
    (pa level : ℕ) (s : Rmm)
    → IsOutput pa level
    → (e : ℕ) × (s2tte_create_assigned_empty pa level s ≡ done e s)
      × (s2tte_is_assigned e level ≡ true)
      × (s2tte_pa e level s ≡ done pa s)
      × (s2tte_get_ripas e s ≡ done rmi_empty s)
assigned_empty-roundtrip pa level s o =
    let e = assigned_empty-entry pa level s o in (pa + 4, e.0, e.1, e.2, e.3)

-- `s2tte_create_valid` at level 3, for an aligned output address, makes an entry without a fault; it
-- is valid, and its address and the RIPAS RAM are read back.
pub valid_page-roundtrip :
    (pa : ℕ) (s : Rmm)
    → IsOutput pa 3
    → (e : ℕ) × (s2tte_create_valid pa 3 s ≡ done e s)
      × (s2tte_is_valid e 3 ≡ true)
      × (s2tte_pa e 3 s ≡ done pa s)
      × (s2tte_get_ripas e s ≡ done rmi_ram s)
unfolding s2tte_create_valid s2tte_is_valid s2tte_pa s2tte_get_ripas s2tte_is_unassigned
    s2tte_is_destroyed s2tte_is_table
valid_page-roundtrip pa s o =
    let b = output_bits pa 3 o in
    let m = mask-attrs pa s2tte_page 3 o (omega arith) in
    let f = fields (pa + s2tte_page) in
    (
      pa + s2tte_page,
      ground (arith, b, o.aligned, bit_or_attrs pa s2tte_page),
      ground (arith, b, f),
      ground (arith, b, f, m),
      ground (arith, b, f),
    )

-- `s2tte_create_table` below level 3, for an aligned address below 2 ^ 48, makes a table entry without
-- a fault; the address is read back by `s2tte_pa_table` and by the walk.
pub table-roundtrip :
    (pa level : ℕ) (s : Rmm)
    → level < 3
    → granule_aligned pa ≡ true
    → pa < 2 ^ 48
    → (e : ℕ) × (s2tte_create_table pa level s ≡ done e s)
      × (s2tte_is_table e level ≡ true)
      × (s2tte_pa_table e level s ≡ done pa s)
      × (entry_is_table e ≡ true)
      × (table_entry_to_phys e ≡ pa)
unfolding s2tte_create_table s2tte_is_table s2tte_pa_table entry_is_table table_entry_to_phys
    granule_aligned
table-roundtrip pa level s low al fits =
    let f = fields (pa + 3) in
    let m = addr_level_mask-level (pa + 3) 3 (omega arith) in
    (
      pa + 3,
      ground (arith, bit_or_attrs pa 3),
      ground (arith, f),
      ground (arith, f, m),
      ground (arith, f),
      ground (arith, m),
    )

-- Every block entry that `s2tte_create_valid` makes at level 2, for an aligned output address, is of
-- none of the six kinds: not valid, not valid NS, no table, not unassigned, destroyed or assigned.
pub valid_block-no-kind :
    (pa : ℕ) (s : Rmm)
    → IsOutput pa 2
    → (e : ℕ) × (s2tte_create_valid pa 2 s ≡ done e s)
      × (s2tte_is_valid e 2 ≡ false)
      × (s2tte_is_valid_ns e 2 ≡ false)
      × (s2tte_is_table e 2 ≡ false)
      × (s2tte_is_unassigned e ≡ false)
      × (s2tte_is_destroyed e ≡ false)
      × (s2tte_is_assigned e 2 ≡ false)
unfolding s2tte_create_valid s2tte_is_valid s2tte_is_valid_ns s2tte_is_unassigned s2tte_is_destroyed
    s2tte_is_assigned s2tte_is_table
valid_block-no-kind pa s o =
    let b = output_bits pa 2 o in
    let f = fields (pa + s2tte_block) in
    (
      pa + s2tte_block,
      ground (arith, b, o.aligned, bit_or_attrs pa s2tte_block),
      ground (arith, b, f),
      ground (arith, b, f),
      ground (arith, b, f),
      ground (arith, b, f),
      ground (arith, b, f),
      ground (arith, b, f),
    )
