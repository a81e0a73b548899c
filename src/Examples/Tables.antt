-- ===== src/Examples/Tables.antt =====
-- Runs of the functions on entries and tables, of the walk, and of the status codes.
use acai_rmm.Common.{ℕ, ◌^◌, ◌%◌, ◌≡◌, ◌<◌, ◌≤◌, ◌↔◌, refl, true, false, arith, ◌==◌, if◌then◌else◌}
use acai_rmm.State.{Rmm, done, ◌>>◌}
use acai_rmm.State.Fvp.{plat_granule_addr_to_idx}
use acai_rmm.Granule.Quiet.{IsQuiet, locked}
use acai_rmm.S2tt.Level.{
  addr_level_mask, shift_left, s2_sl_addr_to_idx, s2_addr_to_idx, addr_is_level_aligned,
  addr_is_level_aligned_iff, s2tte_map_size,
}
use acai_rmm.S2tt.Entry.{
  entry_is_table, table_entry_to_phys, s2tte_create_assigned_empty, s2tte_is_assigned, s2tte_pa,
  s2tte_get_ripas, rmi_empty, s2tte_create_valid, s2tte_is_valid, s2tte_is_valid_ns, s2tte_is_table,
  s2tte_is_unassigned, s2tte_is_destroyed,
}
use acai_rmm.S2tt.Classes.{kinds, kinds-le-one}
use acai_rmm.S2tt.Codec.{IsOutput, assigned_empty-roundtrip, valid_block-no-kind}
use acai_rmm.S2tt.Table.{s2tt_init_assigned_empty, table_maps_assigned_block}
use acai_rmm.S2tt.Unfold.{filled, assigned_entry, table_maps_assigned_block-init}
use acai_rmm.S2tt.Walk.{rtt_walk_lock_unlock}
use acai_rmm.S2tt.Descent.{child, IsLinked, rtt_walk_lock_unlock-descend}
use acai_rmm.Rmi.Realm.Params.{validate_ipa_bits_and_sl, s2_num_root_rtts}
use acai_rmm.Rmi.Realm.Roots.{s2_num_root_rtts-bounds}
use acai_rmm.Examples.Setting.{board, start, start-IsQuiet}

kinds-le-one_example : kinds 0x80002003 2 ≤ 1
kinds-le-one_example = kinds-le-one 0x80002003 2

page-IsOutput : IsOutput 0x80003000 3
unfolding addr_is_level_aligned
page-IsOutput = record { from_block = omega arith; to_page = omega arith; aligned = refl }

block-IsOutput : IsOutput 0x80200000 2
unfolding addr_is_level_aligned
block-IsOutput = record { from_block = omega arith; to_page = omega arith; aligned = refl }

assigned_empty-roundtrip_example :
    (e : ℕ) × (s2tte_create_assigned_empty 0x80003000 3 start ≡ done e start)
    × (s2tte_is_assigned e 3 ≡ true)
    × (s2tte_pa e 3 start ≡ done 0x80003000 start)
    × (s2tte_get_ripas e start ≡ done rmi_empty start)
assigned_empty-roundtrip_example = assigned_empty-roundtrip 0x80003000 3 start page-IsOutput

valid_block-no-kind_example :
    (e : ℕ) × (s2tte_create_valid 0x80200000 2 start ≡ done e start)
    × (s2tte_is_valid e 2 ≡ false)
    × (s2tte_is_valid_ns e 2 ≡ false)
    × (s2tte_is_table e 2 ≡ false)
    × (s2tte_is_unassigned e ≡ false)
    × (s2tte_is_destroyed e ≡ false)
    × (s2tte_is_assigned e 2 ≡ false)
valid_block-no-kind_example = valid_block-no-kind 0x80200000 start block-IsOutput

table_maps_assigned_block-init_example :
    (s2tt_init_assigned_empty 4 0x80200000 3 >> table_maps_assigned_block 4 3) start
    ≡ done true (filled start 4 0 512 assigned_entry 0x80200000 4096)
table_maps_assigned_block-init_example =
    table_maps_assigned_block-init 4 0x80200000 start block-IsOutput

s2_num_root_rtts-bounds_example : (1 ≤ s2_num_root_rtts 40 1) × (s2_num_root_rtts 40 1 ≤ 16)
unfolding validate_ipa_bits_and_sl
s2_num_root_rtts-bounds_example = s2_num_root_rtts-bounds board 40 1 refl

addr_is_level_aligned_iff_example :
    (addr_is_level_aligned 0x80200000 2 ≡ true)
    ↔ ((0x80200000 % s2tte_map_size 2 ≡ 0) × (0x80200000 < 2 ^ 48))
addr_is_level_aligned_iff_example = addr_is_level_aligned_iff 0x80200000 2 (omega arith)

-- Entry 1 of the table of level 3 maps granule 5, which is no table.
abbrev mapped : Rmm
mapped = record start {
  page = λ g i. if g == 2 then (if i == 1 then 0x80005003 else 0) else start.page g i;
}

mapped-IsQuiet : IsQuiet mapped
mapped-IsQuiet = record { free = start-IsQuiet.free; counted = start-IsQuiet.counted }

-- The root table has level 2, and granule 2 level 3.
abbrev level_of : ℕ → ℕ
level_of g = if g == 1 then 2 else 3

only_entry :
    (g idx : ℕ) → level_of g < 3 → entry_is_table (mapped.page g idx) ≡ true → (g ≡ 1) × (idx ≡ 0)
unfolding entry_is_table
only_entry g idx lv h = ground arith

child_two :
    (g idx : ℕ)
    → level_of g < 3
    → entry_is_table (mapped.page g idx) ≡ true
    → child board mapped g idx ≡ 2
unfolding table_entry_to_phys plat_granule_addr_to_idx addr_level_mask
child_two g idx lv h = rw ((only_entry g idx lv h).0, (only_entry g idx lv h).1) refl

mapped-IsLinked : IsLinked board level_of mapped
mapped-IsLinked = record {
  in_range = λ g idx e lv h. omega (arith, child_two g idx lv h);
  is_table = λ g idx e lv h. rw (child_two g idx lv h) refl;
  next_level = λ g idx e lv h. rw (child_two g idx lv h, (only_entry g idx lv h).0) refl;
}

rtt_walk_lock_unlock-descend_example :
    rtt_walk_lock_unlock board 1 2 32 0x1000 3 (locked 1 mapped)
    ≡ done (record { g_llt = 2; index = 1; last_level = 3 }) (locked 2 mapped)
unfolding shift_left s2_sl_addr_to_idx s2_addr_to_idx entry_is_table table_entry_to_phys
    plat_granule_addr_to_idx addr_level_mask
rtt_walk_lock_unlock-descend_example =
    rtt_walk_lock_unlock-descend board level_of 1 2 32 0x1000 3 mapped mapped-IsQuiet
      mapped-IsLinked (omega arith) (omega arith) (omega arith) refl refl
