-- ===== src/Rmi/Rtt/DataDestroy.antt =====
-- runtime/rmi/rtt.c, `smc_data_destroy`: a page is taken out of a realm and becomes a delegated granule.
use acai_rmm.Common.{ℕ, Bool, false, not, ◌&&◌, Option, none, some, ◌!=◌, if◌then◌else◌}
use acai_rmm.State.{
  Platform, S2Context, delegated, rd, rtt, data_granule, Command, pure, ◌>>=◌, ◌>>◌, assert,
  read_rd, read_word, write_word,
}
use acai_rmm.Status.{rmi_success, rmi_error_input, rmi_error_rtt, pack_return_code}
use acai_rmm.Granule.Ops.{
  granule_lock, granule_unlock, granule_unlock_transition, granule_put, granule_memzero,
}
use acai_rmm.Granule.Find.{find_lock_granule}
use acai_rmm.S2tt.Level.{rtt_page_level}
use acai_rmm.S2tt.Entry.{
  rmi_empty, s2tte_is_valid, s2tte_is_assigned, s2tte_pa, s2tte_create_destroyed,
  s2tte_create_unassigned,
}
use acai_rmm.S2tt.Walk.{RttWalk, rtt_walk_lock_unlock, invalidate_page}
use acai_rmm.Rmi.Rtt.Validate.{validate_map_addr}

-- `granule_memzero` and the transition, behind `assert(g_data != NULL)`.
unfoldable pub scrub_data : Option ℕ → Command (Unit {0})
scrub_data none = assert false
scrub_data (some g_data) = do granule_memzero g_data; granule_unlock_transition g_data delegated

module _ (plat : Platform) where
  -- With the entry valid or assigned, up to `out_unmap_ll_table`.
  unfoldable pub unmap_data : S2Context → ℕ → ℕ → Bool → RttWalk → Command ℕ
  unfolding scrub_data
  unmap_data s2_ctx map_addr data_addr valid wi = do
    write_word wi.g_llt wi.index
        (if valid then s2tte_create_destroyed else s2tte_create_unassigned rmi_empty)
    (if valid then invalidate_page s2_ctx map_addr else pure tt)
    granule_put wi.g_llt
    g_data ← find_lock_granule plat data_addr data_granule
    scrub_data g_data
    pure rmi_success

  unfoldable pub destroy_data_at : S2Context → ℕ → RttWalk → Command ℕ
  unfolding unmap_data
  destroy_data_at s2_ctx map_addr wi =
      if wi.last_level != rtt_page_level then pack_return_code rmi_error_rtt wi.last_level else (do
        s2tte ← read_word wi.g_llt wi.index
        let valid = s2tte_is_valid s2tte rtt_page_level
        if not valid && not (s2tte_is_assigned s2tte rtt_page_level)
            then pack_return_code rmi_error_rtt rtt_page_level
            else (do
              data_addr ← s2tte_pa s2tte rtt_page_level
              unmap_data s2_ctx map_addr data_addr valid wi))

  unfoldable pub destroy_data_locked : ℕ → Option ℕ → Command ℕ
  unfolding destroy_data_at
  destroy_data_locked map_addr none = pure rmi_error_input
  destroy_data_locked map_addr (some g_rd) = do
    d ← read_rd g_rd
    if not (validate_map_addr map_addr rtt_page_level d)
        then granule_unlock g_rd >> pure rmi_error_input
        else (do
          granule_lock d.s2_ctx.g_rtt rtt
          granule_unlock g_rd
          wi ←
              rtt_walk_lock_unlock plat d.s2_ctx.g_rtt d.s2_ctx.s2_starting_level d.s2_ctx.ipa_bits
                map_addr rtt_page_level
          ret ← destroy_data_at d.s2_ctx map_addr wi
          granule_unlock wi.g_llt
          pure ret)

  unfoldable pub smc_data_destroy : ℕ → ℕ → Command ℕ
  unfolding destroy_data_locked
  smc_data_destroy rd_addr map_addr = do
    g_rd ← find_lock_granule plat rd_addr rd
    destroy_data_locked map_addr g_rd
