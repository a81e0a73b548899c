-- ===== src/Rmi/Rtt/Fold.antt =====
-- runtime/rmi/rtt.c, `smc_rtt_fold`: a uniform table is replaced by one entry of its parent.
use acai_rmm.Common.{ℕ, ◌-◌, false, not, ◌||◌, Option, none, some, leb, ◌==◌, ◌!=◌, if◌then◌else◌}
use acai_rmm.State.{
  Platform, S2Context, delegated, rd, rtt, Command, pure, ◌>>=◌, ◌>>◌, assert, read_rd, read_word,
  write_word, read_granule,
}
use acai_rmm.Status.{
  rmi_success, rmi_error_input, rmi_error_rtt, rmi_error_in_use, pack_return_code,
}
use acai_rmm.Granule.Ops.{
  granule_lock, granule_unlock, granule_put, granule_refcount_dec, granule_set_state,
  granule_memzero,
}
use acai_rmm.Granule.Find.{find_lock_granule}
use acai_rmm.S2tt.Level.{rtt_min_block_level, s2ttes_per_s2tt}
use acai_rmm.S2tt.Entry.{
  s2tte_is_valid, s2tte_is_valid_ns, s2tte_is_table, s2tte_pa, s2tte_pa_table,
  s2tte_create_destroyed, s2tte_create_unassigned, s2tte_create_assigned_empty, s2tte_create_valid,
  s2tte_create_valid_ns,
}
use acai_rmm.S2tt.Table.{
  table_is_destroyed_block, table_is_unassigned_block, table_maps_assigned_block,
  table_maps_valid_block, table_maps_valid_ns_block,
}
use acai_rmm.S2tt.Walk.{RttWalk, rtt_walk_lock_unlock, invalidate_block, invalidate_pages_in_block}
use acai_rmm.Rmi.Rtt.Validate.{validate_rtt_structure_cmds}

-- What the cases over the table's reference count give: the new parent entry, or the error with
-- which the source goes to `out_unmap_table`.
pub data Folded : Type 0 where
  entry : ℕ → Folded
  failed : ℕ → Folded

unfoldable pub fold_empty : ℕ → RttWalk → Command Folded
fold_empty g_tbl wi = do
  destroyed ← table_is_destroyed_block g_tbl
  elim destroyed [
    | some _ ↦ (do granule_put wi.g_llt; pure (entry s2tte_create_destroyed))
    | none ↦ (do
      unassigned ← table_is_unassigned_block g_tbl
      elim unassigned [
        | some ripas ↦ (do granule_put wi.g_llt; pure (entry (s2tte_create_unassigned ripas)))
        | none ↦ pure (failed rmi_error_in_use)
      ])
  ]

unfoldable pub fold_mapped : ℕ → ℕ → Command Folded
fold_mapped level g_tbl = do
  s2tte ← read_word g_tbl 0
  block_pa ← s2tte_pa s2tte (level - 1)
  assigned ← table_maps_assigned_block g_tbl level
  valid ← (if assigned then pure false else table_maps_valid_block g_tbl level)
  valid_ns ← (if assigned || valid then pure false else table_maps_valid_ns_block g_tbl level)
  parent_s2tte ←
      (if assigned
        then s2tte_create_assigned_empty block_pa (level - 1)
        else if valid
        then s2tte_create_valid block_pa (level - 1)
        else if valid_ns
        then s2tte_create_valid_ns block_pa (level - 1)
        else (assert false >> pure 0))
  granule_refcount_dec g_tbl s2ttes_per_s2tt
  pure (entry parent_s2tte)

unfoldable pub fold_entries : ℕ → ℕ → RttWalk → Command Folded
unfolding fold_empty fold_mapped
fold_entries level g_tbl wi = do
  x ← read_granule g_tbl
  if x.refcount == 0
      then fold_empty g_tbl wi
      else if x.refcount == s2ttes_per_s2tt
      then (if leb level rtt_min_block_level
          then pure (failed rmi_error_in_use)
          else fold_mapped level g_tbl)
      else pure (failed rmi_error_in_use)

-- The break-before-make of the parent entry, and the release of the table.
unfoldable pub fold_finish : S2Context → ℕ → ℕ → ℕ → RttWalk → Folded → Command ℕ
fold_finish s2_ctx map_addr level g_tbl wi (failed ret) = pure ret
fold_finish s2_ctx map_addr level g_tbl wi (entry parent_s2tte) = do
  write_word wi.g_llt wi.index 0
  (if s2tte_is_valid parent_s2tte (level - 1) || s2tte_is_valid_ns parent_s2tte (level - 1)
      then invalidate_pages_in_block s2_ctx map_addr
      else invalidate_block s2_ctx map_addr)
  write_word wi.g_llt wi.index parent_s2tte
  granule_memzero g_tbl
  granule_set_state g_tbl delegated
  pure rmi_success

module _ (plat : Platform) where
  -- The pointer that `find_lock_granule` returned, behind its assertion.
  unfoldable pub fold_table : S2Context → ℕ → ℕ → RttWalk → Option ℕ → Command ℕ
  unfolding fold_entries fold_finish
  fold_table s2_ctx map_addr level wi none = assert false >> pure 0
  fold_table s2_ctx map_addr level wi (some g_tbl) = do
    folded ← fold_entries level g_tbl wi
    ret ← fold_finish s2_ctx map_addr level g_tbl wi folded
    granule_unlock g_tbl
    pure ret

  -- From the end of the walk to `out_unlock_parent_table`.
  unfoldable pub fold_at : S2Context → ℕ → ℕ → ℕ → RttWalk → Command ℕ
  unfolding fold_table
  fold_at s2_ctx rtt_addr map_addr level wi =
      if wi.last_level != level - 1 then pack_return_code rmi_error_rtt wi.last_level else (do
        parent_s2tte ← read_word wi.g_llt wi.index
        if not (s2tte_is_table parent_s2tte (level - 1))
            then pack_return_code rmi_error_rtt (level - 1)
            else (do
              pa ← s2tte_pa_table parent_s2tte (level - 1)
              if rtt_addr != pa then pack_return_code rmi_error_rtt (level - 1) else (do
                g_tbl ← find_lock_granule plat rtt_addr rtt
                fold_table s2_ctx map_addr level wi g_tbl)))

  unfoldable pub fold_locked : ℕ → ℕ → ℕ → Option ℕ → Command ℕ
  unfolding fold_at
  fold_locked rtt_addr map_addr level none = pure rmi_error_input
  fold_locked rtt_addr map_addr level (some g_rd) = do
    d ← read_rd g_rd
    if not (validate_rtt_structure_cmds map_addr level d)
        then granule_unlock g_rd >> pure rmi_error_input
        else (do
          granule_lock d.s2_ctx.g_rtt rtt
          granule_unlock g_rd
          wi ←
              rtt_walk_lock_unlock plat d.s2_ctx.g_rtt d.s2_ctx.s2_starting_level d.s2_ctx.ipa_bits
                map_addr (level - 1)
          ret ← fold_at d.s2_ctx rtt_addr map_addr level wi
          granule_unlock wi.g_llt
          pure ret)

  unfoldable pub smc_rtt_fold : ℕ → ℕ → ℕ → ℕ → Command ℕ
  unfolding fold_locked
  smc_rtt_fold rtt_addr rd_addr map_addr ulevel = do
    g_rd ← find_lock_granule plat rd_addr rd
    fold_locked rtt_addr map_addr ulevel g_rd
