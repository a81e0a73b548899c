-- ===== src/Rmi/Rtt/Ripas.antt =====
-- runtime/rmi/rtt.c: the RIPAS of an address is set, by the host before the realm is active and at the
-- request of the realm afterwards.
pub mod Laws
use acai_rmm.Common.{
  ℕ, ◌+◌, ◌%◌, ◌^◌, Bool, not, ◌&&◌, ◌||◌, Option, none, some, ltb, ◌==◌, ◌!=◌, if◌then◌else◌,
  bit_or,
}
use acai_rmm.State.{
  Platform, S2Context, Rd, Rec, rd, rec, rtt, realm_state_new, Command, pure, ◌>>=◌, ◌>>◌,
  read_granule, read_rd, write_rd, read_rec, write_rec, read_word, write_word,
}
use acai_rmm.Status.{
  rmi_success, rmi_error_input, rmi_error_realm, rmi_error_rec, rmi_error_rtt, rmi_error_in_use,
  pack_return_code,
}
use acai_rmm.Granule.Ops.{granule_lock, granule_unlock}
use acai_rmm.Granule.Find.{find_lock_granule}
use acai_rmm.Granule.Set.{find_lock_two_granules}
use acai_rmm.S2tt.Level.{rtt_page_level, s2tte_map_size}
use acai_rmm.S2tt.Entry.{
  rmi_empty, rmi_ram, s2tte_is_table, s2tte_is_valid, s2tte_is_unassigned, s2tte_is_assigned,
  s2tte_pa, s2tte_create_assigned_empty, s2tte_create_ripas,
}
use acai_rmm.S2tt.Walk.{RttWalk, rtt_walk_lock_unlock, invalidate_page, invalidate_block}
use acai_rmm.Rmi.Rtt.Validate.{validate_rtt_entry_cmds, addr_in_par}
use acai_rmm.Rmi.Rtt.Measure.{ripas_granule_measure}

-- The new entry, or `none` for false.
unfoldable pub update_ripas : ℕ → ℕ → ℕ → Command (Option ℕ)
update_ripas s2tte level ripas =
    if s2tte_is_table s2tte level
    then pure none
    else if s2tte_is_valid s2tte level
    then (if ripas == rmi_empty
        then (do
          pa ← s2tte_pa s2tte level
          new_s2tte ← s2tte_create_assigned_empty pa level
          pure (some new_s2tte))
        else pure (some s2tte))
    else if s2tte_is_unassigned s2tte || s2tte_is_assigned s2tte level
    then pure (some (bit_or s2tte (s2tte_create_ripas ripas)))
    else pure none

module _ (plat : Platform) where
  unfoldable pub init_ripas_at : ℕ → Rd → ℕ → ℕ → RttWalk → Command ℕ
  init_ripas_at g_rd d map_addr level wi =
      if wi.last_level != level then pack_return_code rmi_error_rtt wi.last_level else (do
        s2tte ← read_word wi.g_llt wi.index
        if s2tte_is_table s2tte level || not (s2tte_is_unassigned s2tte)
            then pack_return_code rmi_error_rtt level
            else (do
              write_word wi.g_llt wi.index (bit_or s2tte (s2tte_create_ripas rmi_ram))
              write_rd g_rd (ripas_granule_measure plat d map_addr level)
              pure rmi_success))

  unfoldable pub init_ripas_locked : ℕ → ℕ → Option ℕ → Command ℕ
  unfolding init_ripas_at
  init_ripas_locked map_addr level none = pure rmi_error_input
  init_ripas_locked map_addr level (some g_rd) = do
    d ← read_rd g_rd
    if d.state != realm_state_new
        then granule_unlock g_rd >> pure rmi_error_realm
        else if not (validate_rtt_entry_cmds map_addr level d)
        then granule_unlock g_rd >> pure rmi_error_input
        else if not (addr_in_par d map_addr)
        then granule_unlock g_rd >> pure rmi_error_input
        else (do
          granule_lock d.s2_ctx.g_rtt rtt
          granule_unlock g_rd
          wi ←
              rtt_walk_lock_unlock plat d.s2_ctx.g_rtt d.s2_ctx.s2_starting_level d.s2_ctx.ipa_bits
                map_addr level
          ret ← init_ripas_at g_rd d map_addr level wi
          granule_unlock wi.g_llt
          pure ret)

  unfoldable pub smc_rtt_init_ripas : ℕ → ℕ → ℕ → Command ℕ
  unfolding init_ripas_locked
  smc_rtt_init_ripas rd_addr map_addr ulevel = do
    g_rd ← find_lock_granule plat rd_addr rd
    init_ripas_locked map_addr ulevel g_rd

  -- With the entry changed: the TLB, and the progress of the request in the execution context.
  unfoldable pub set_ripas_done : S2Context → ℕ → Rec → ℕ → ℕ → ℕ → Bool → Command ℕ
  set_ripas_done s2_ctx g_rec r map_addr level ripas valid = do
    (if valid && ripas == rmi_empty
        then (if level == rtt_page_level
            then invalidate_page s2_ctx map_addr
            else invalidate_block s2_ctx map_addr)
        else pure tt)
    write_rec g_rec (record r {
      set_ripas = record r.set_ripas { addr = (r.set_ripas.addr + s2tte_map_size level) % 2 ^ 64 };
    })
    pure rmi_success

  unfoldable pub set_ripas_at : S2Context → ℕ → Rec → ℕ → ℕ → ℕ → RttWalk → Command ℕ
  unfolding update_ripas set_ripas_done
  set_ripas_at s2_ctx g_rec r map_addr level ripas wi =
      if wi.last_level != level then pack_return_code rmi_error_rtt wi.last_level else (do
        s2tte ← read_word wi.g_llt wi.index
        updated ← update_ripas s2tte level ripas
        elim updated [
          | none ↦ pack_return_code rmi_error_rtt level
          | some new_s2tte ↦ (do
            write_word wi.g_llt wi.index new_s2tte
            set_ripas_done s2_ctx g_rec r map_addr level ripas (s2tte_is_valid s2tte level))
        ])

  -- The checks of the request, in their order, up to `out_unlock_rec_rd`.
  unfoldable pub set_ripas_locked : ℕ → ℕ → ℕ → ℕ → ℕ → Command ℕ
  unfolding set_ripas_at
  set_ripas_locked g_rd g_rec map_addr level ripas = do
    x ← read_granule g_rec
    if x.refcount != 0 then pure rmi_error_in_use else (do
      r ← read_rec g_rec
      d ← read_rd g_rd
      if g_rd != r.realm_info.g_rd
          then pure rmi_error_rec
          else if ripas != r.set_ripas.ripas
          then pure rmi_error_input
          else if map_addr != r.set_ripas.addr
          then pure rmi_error_input
          else if not (validate_rtt_entry_cmds map_addr level d)
          then pure rmi_error_input
          else if ltb r.set_ripas.end ((map_addr + s2tte_map_size level) % 2 ^ 64)
          then pure rmi_error_input
          else (do
            granule_lock d.s2_ctx.g_rtt rtt
            wi ←
                rtt_walk_lock_unlock plat d.s2_ctx.g_rtt d.s2_ctx.s2_starting_level
                  d.s2_ctx.ipa_bits map_addr level
            ret ← set_ripas_at d.s2_ctx g_rec r map_addr level ripas wi
            granule_unlock wi.g_llt
            pure ret))

  -- `enum ripas` is 32 bits wide.
  unfoldable pub smc_rtt_set_ripas : ℕ → ℕ → ℕ → ℕ → ℕ → Command ℕ
  unfolding set_ripas_locked
  smc_rtt_set_ripas rd_addr rec_addr map_addr ulevel uripas =
      let ripas = uripas % 2 ^ 32 in
      if ltb rmi_ram ripas then pure rmi_error_input else (do
        locked ← find_lock_two_granules plat rd_addr rd rec_addr rec
        elim locked [
          | none ↦ pure rmi_error_input
          | some p ↦ (do
            ret ← set_ripas_locked p.0 p.1 map_addr ulevel ripas
            granule_unlock p.1
            granule_unlock p.0
            pure ret)
        ])
