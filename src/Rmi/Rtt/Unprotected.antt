-- ===== src/Rmi/Rtt/Unprotected.antt =====
-- runtime/rmi/rtt.c, `map_unmap_ns` and the two handlers over it: memory of the host is mapped into
-- the unprotected half of a realm's address space.
use acai_rmm.Common.{ℕ, Bool, not, ◌&&◌, true, false, Option, none, some, ◌==◌, ◌!=◌, if◌then◌else◌}
use acai_rmm.State.{
  Platform, S2Context, rd, rtt, Command, pure, ◌>>=◌, ◌>>◌, read_rd, read_word, write_word,
}
use acai_rmm.Status.{rmi_success, rmi_error_input, rmi_error_rtt, pack_return_code}
use acai_rmm.Granule.Ops.{granule_lock, granule_unlock, granule_get, granule_put}
use acai_rmm.Granule.Find.{find_lock_granule}
use acai_rmm.S2tt.Level.{rtt_page_level}
use acai_rmm.S2tt.Entry.{
  s2tte_is_unassigned, s2tte_is_valid_ns, s2tte_create_valid_ns, s2tte_create_invalid_ns,
  host_ns_s2tte_is_valid,
}
use acai_rmm.S2tt.Walk.{RttWalk, rtt_walk_lock_unlock, invalidate_page, invalidate_block}
use acai_rmm.Rmi.Rtt.Validate.{validate_rtt_map_cmds, addr_in_par}

-- `enum map_unmap_ns_op`
pub data MapUnmapNsOp : Type 0 where
  map_ns unmap_ns : MapUnmapNsOp

abbrev is_map : MapUnmapNsOp → Bool
is_map map_ns = true
is_map unmap_ns = false

-- The branch of the operation, from the end of the walk to `out_unmap_table`.
unfoldable pub map_unmap_at : MapUnmapNsOp → S2Context → ℕ → ℕ → ℕ → RttWalk → Command ℕ
map_unmap_at map_ns s2_ctx map_addr level host_s2tte wi = do
  s2tte ← read_word wi.g_llt wi.index
  if not (s2tte_is_unassigned s2tte) then pack_return_code rmi_error_rtt level else (do
    new_s2tte ← s2tte_create_valid_ns host_s2tte level
    write_word wi.g_llt wi.index new_s2tte
    granule_get wi.g_llt
    pure rmi_success)
map_unmap_at unmap_ns s2_ctx map_addr level host_s2tte wi = do
  s2tte ← read_word wi.g_llt wi.index
  if not (s2tte_is_valid_ns s2tte level) then pack_return_code rmi_error_rtt level else (do
    write_word wi.g_llt wi.index s2tte_create_invalid_ns
    granule_put wi.g_llt
    (if level == rtt_page_level
        then invalidate_page s2_ctx map_addr
        else invalidate_block s2_ctx map_addr)
    pure rmi_success)

module _ (plat : Platform) where
  unfoldable pub map_unmap_locked : ℕ → ℕ → ℕ → MapUnmapNsOp → Option ℕ → Command ℕ
  unfolding map_unmap_at
  map_unmap_locked map_addr level host_s2tte op none = pure rmi_error_input
  map_unmap_locked map_addr level host_s2tte op (some g_rd) = do
    d ← read_rd g_rd
    if not (validate_rtt_map_cmds map_addr level d)
        then granule_unlock g_rd >> pure rmi_error_input
        else if is_map op && addr_in_par d map_addr
        then granule_unlock g_rd >> pure rmi_error_input
        else (do
          granule_lock d.s2_ctx.g_rtt rtt
          granule_unlock g_rd
          wi ←
              rtt_walk_lock_unlock plat d.s2_ctx.g_rtt d.s2_ctx.s2_starting_level d.s2_ctx.ipa_bits
                map_addr level
          ret ←
              (if wi.last_level != level
                then pack_return_code rmi_error_rtt wi.last_level
                else map_unmap_at op d.s2_ctx map_addr level host_s2tte wi)
          granule_unlock wi.g_llt
          pure ret)

  unfoldable pub map_unmap_ns_cmd : ℕ → ℕ → ℕ → ℕ → MapUnmapNsOp → Command ℕ
  unfolding map_unmap_locked
  map_unmap_ns_cmd rd_addr map_addr level host_s2tte op = do
    g_rd ← find_lock_granule plat rd_addr rd
    map_unmap_locked map_addr level host_s2tte op g_rd

  unfoldable pub smc_rtt_map_unprotected : ℕ → ℕ → ℕ → ℕ → Command ℕ
  unfolding map_unmap_ns_cmd
  smc_rtt_map_unprotected rd_addr map_addr ulevel s2tte =
      if not (host_ns_s2tte_is_valid s2tte ulevel)
      then pure rmi_error_input
      else map_unmap_ns_cmd rd_addr map_addr ulevel s2tte map_ns

  unfoldable pub smc_rtt_unmap_unprotected : ℕ → ℕ → ℕ → Command ℕ
  unfolding map_unmap_ns_cmd
  smc_rtt_unmap_unprotected rd_addr map_addr ulevel =
      map_unmap_ns_cmd rd_addr map_addr ulevel 0 unmap_ns
