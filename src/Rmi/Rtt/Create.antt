-- ===== src/Rmi/Rtt/Create.antt =====
-- runtime/rmi/rtt.c, `smc_rtt_create`: a table is put in the place of an entry, which it unfolds.
use acai_rmm.Common.{ℕ, ◌-◌, Option, none, some, not, false, ltb, ◌!=◌, if◌then◌else◌}
use acai_rmm.State.{
  Platform, S2Context, delegated, rd, rtt, Command, pure, ◌>>=◌, ◌>>◌, assert, read_rd, read_word,
  write_word,
}
use acai_rmm.Status.{rmi_success, rmi_error_input, rmi_error_rtt, pack_return_code}
use acai_rmm.Granule.Ops.{
  granule_lock, granule_unlock, granule_get, granule_refcount_inc, granule_set_state,
}
use acai_rmm.Granule.Set.{find_lock_two_granules}
use acai_rmm.S2tt.Level.{rtt_min_block_level, s2ttes_per_s2tt}
use acai_rmm.S2tt.Entry.{
  s2tte_is_unassigned, s2tte_is_destroyed, s2tte_is_assigned, s2tte_is_valid, s2tte_is_valid_ns,
  s2tte_is_table, s2tte_get_ripas, s2tte_pa, s2tte_create_table,
}
use acai_rmm.S2tt.Table.{
  s2tt_init_unassigned, s2tt_init_destroyed, s2tt_init_assigned_empty, s2tt_init_valid,
  s2tt_init_valid_ns,
}
use acai_rmm.S2tt.Walk.{RttWalk, rtt_walk_lock_unlock, invalidate_block}
use acai_rmm.Rmi.Rtt.Validate.{validate_rtt_structure_cmds}

-- The chain of cases over the parent entry: the new table is filled, and the reference counts and
-- the parent entry are changed; `some ret` goes to `out_unmap_table`.
unfoldable pub unfold_parent : S2Context → ℕ → ℕ → ℕ → RttWalk → ℕ → Command (Option ℕ)
unfold_parent s2_ctx map_addr level g_tbl wi parent_s2tte =
    if s2tte_is_unassigned parent_s2tte
    then (do
      ripas ← s2tte_get_ripas parent_s2tte
      s2tt_init_unassigned g_tbl ripas
      granule_get wi.g_llt
      pure none)
    else if s2tte_is_destroyed parent_s2tte
    then (do s2tt_init_destroyed g_tbl; granule_get wi.g_llt; pure none)
    else if s2tte_is_assigned parent_s2tte (level - 1)
    then (do
      assert (ltb rtt_min_block_level level)
      block_pa ← s2tte_pa parent_s2tte (level - 1)
      s2tt_init_assigned_empty g_tbl block_pa level
      granule_refcount_inc g_tbl s2ttes_per_s2tt
      pure none)
    else if s2tte_is_valid parent_s2tte (level - 1)
    then (do
      assert (ltb rtt_min_block_level level)
      write_word wi.g_llt wi.index 0
      invalidate_block s2_ctx map_addr
      block_pa ← s2tte_pa parent_s2tte (level - 1)
      s2tt_init_valid g_tbl block_pa level
      granule_refcount_inc g_tbl s2ttes_per_s2tt
      pure none)
    else if s2tte_is_valid_ns parent_s2tte (level - 1)
    then (do
      assert (ltb rtt_min_block_level level)
      write_word wi.g_llt wi.index 0
      invalidate_block s2_ctx map_addr
      block_pa ← s2tte_pa parent_s2tte (level - 1)
      s2tt_init_valid_ns g_tbl block_pa level
      granule_refcount_inc g_tbl s2ttes_per_s2tt
      pure none)
    else if s2tte_is_table parent_s2tte (level - 1)
    then (do ret ← pack_return_code rmi_error_rtt (level - 1); pure (some ret))
    else (assert false >> pure none)

-- From the end of the walk to `out_unlock_llt`.
unfoldable pub create_at : S2Context → ℕ → ℕ → ℕ → ℕ → RttWalk → Command ℕ
unfolding unfold_parent
create_at s2_ctx rtt_addr map_addr level g_tbl wi =
    if wi.last_level != level - 1 then pack_return_code rmi_error_rtt wi.last_level else (do
      parent_s2tte ← read_word wi.g_llt wi.index
      failed ← unfold_parent s2_ctx map_addr level g_tbl wi parent_s2tte
      elim failed [
        | some ret ↦ pure ret
        | none ↦ (do
          granule_set_state g_tbl rtt
          s2tte ← s2tte_create_table rtt_addr (level - 1)
          write_word wi.g_llt wi.index s2tte
          pure rmi_success)
      ])

module _ (plat : Platform) where
  -- With the table's granule and the descriptor locked.
  unfoldable pub create_locked : ℕ → ℕ → ℕ → Option (ℕ × ℕ) → Command ℕ
  unfolding create_at
  create_locked rtt_addr map_addr level none = pure rmi_error_input
  create_locked rtt_addr map_addr level (some (g_tbl, g_rd)) = do
    d ← read_rd g_rd
    if not (validate_rtt_structure_cmds map_addr level d)
        then granule_unlock g_rd >> granule_unlock g_tbl >> pure rmi_error_input
        else (do
          granule_lock d.s2_ctx.g_rtt rtt
          granule_unlock g_rd
          wi ←
              rtt_walk_lock_unlock plat d.s2_ctx.g_rtt d.s2_ctx.s2_starting_level d.s2_ctx.ipa_bits
                map_addr (level - 1)
          ret ← create_at d.s2_ctx rtt_addr map_addr level g_tbl wi
          granule_unlock wi.g_llt
          granule_unlock g_tbl
          pure ret)

  unfoldable pub smc_rtt_create : ℕ → ℕ → ℕ → ℕ → Command ℕ
  unfolding create_locked
  smc_rtt_create rtt_addr rd_addr map_addr ulevel = do
    found ← find_lock_two_granules plat rtt_addr delegated rd_addr rd
    create_locked rtt_addr map_addr ulevel found
