-- ===== src/Rmi/Rtt/Destroy.antt =====
-- runtime/rmi/rtt.c, `smc_rtt_destroy`: an unused table is taken out of the tree.
use acai_rmm.Common.{ℕ, ◌-◌, Bool, not, false, Option, none, some, ◌!=◌, if◌then◌else◌}
use acai_rmm.State.{
  Platform, S2Context, delegated, rd, rtt, Command, pure, ◌>>=◌, ◌>>◌, assert, read_rd, read_word,
  write_word, read_granule,
}
use acai_rmm.Status.{
  rmi_success, rmi_error_input, rmi_error_rtt, rmi_error_in_use, pack_return_code,
}
use acai_rmm.Granule.Ops.{
  granule_lock, granule_unlock, granule_put, granule_set_state, granule_memzero,
}
use acai_rmm.Granule.Find.{find_lock_granule}
use acai_rmm.S2tt.Entry.{
  s2tte_is_table, s2tte_pa_table, s2tte_create_destroyed, s2tte_create_invalid_ns,
}
use acai_rmm.S2tt.Walk.{RttWalk, rtt_walk_lock_unlock, invalidate_block}
use acai_rmm.Rmi.Rtt.Validate.{validate_rtt_structure_cmds, addr_in_par}

-- With the table locked and unused, up to `out_unlock_table`.
unfoldable pub destroy_unused : S2Context → ℕ → Bool → ℕ → RttWalk → Command ℕ
destroy_unused s2_ctx map_addr in_par g_tbl wi = do
  let parent_s2tte = if in_par then s2tte_create_destroyed else s2tte_create_invalid_ns
  granule_put wi.g_llt
  write_word wi.g_llt wi.index 0
  invalidate_block s2_ctx map_addr
  write_word wi.g_llt wi.index parent_s2tte
  granule_memzero g_tbl
  granule_set_state g_tbl delegated
  pure rmi_success

module _ (plat : Platform) where
  unfoldable pub destroy_table : S2Context → ℕ → Bool → RttWalk → Option ℕ → Command ℕ
  unfolding destroy_unused
  destroy_table s2_ctx map_addr in_par wi none = assert false >> pure 0
  destroy_table s2_ctx map_addr in_par wi (some g_tbl) = do
    x ← read_granule g_tbl
    ret ←
        (if x.refcount != 0
          then pure rmi_error_in_use
          else destroy_unused s2_ctx map_addr in_par g_tbl wi)
    granule_unlock g_tbl
    pure ret

  unfoldable pub destroy_at : S2Context → ℕ → ℕ → ℕ → Bool → RttWalk → Command ℕ
  unfolding destroy_table
  destroy_at s2_ctx rtt_addr map_addr level in_par wi =
      if wi.last_level != level - 1 then pack_return_code rmi_error_rtt wi.last_level else (do
        parent_s2tte ← read_word wi.g_llt wi.index
        if not (s2tte_is_table parent_s2tte (level - 1))
            then pack_return_code rmi_error_rtt (level - 1)
            else (do
              pa ← s2tte_pa_table parent_s2tte (level - 1)
              if rtt_addr != pa then pure rmi_error_input else (do
                g_tbl ← find_lock_granule plat rtt_addr rtt
                destroy_table s2_ctx map_addr in_par wi g_tbl)))

  unfoldable pub destroy_locked : ℕ → ℕ → ℕ → Option ℕ → Command ℕ
  unfolding destroy_at
  destroy_locked rtt_addr map_addr level none = pure rmi_error_input
  destroy_locked rtt_addr map_addr level (some g_rd) = do
    d ← read_rd g_rd
    if not (validate_rtt_structure_cmds map_addr level d)
        then granule_unlock g_rd >> pure rmi_error_input
        else (do
          granule_lock d.s2_ctx.g_rtt rtt
          granule_unlock g_rd
          wi ←
              rtt_walk_lock_unlock plat d.s2_ctx.g_rtt d.s2_ctx.s2_starting_level d.s2_ctx.ipa_bits
                map_addr (level - 1)
          ret ← destroy_at d.s2_ctx rtt_addr map_addr level (addr_in_par d map_addr) wi
          granule_unlock wi.g_llt
          pure ret)

  unfoldable pub smc_rtt_destroy : ℕ → ℕ → ℕ → ℕ → Command ℕ
  unfolding destroy_locked
  smc_rtt_destroy rtt_addr rd_addr map_addr ulevel = do
    g_rd ← find_lock_granule plat rd_addr rd
    destroy_locked rtt_addr map_addr ulevel g_rd
