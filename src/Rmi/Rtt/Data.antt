-- ===== src/Rmi/Rtt/Data.antt =====
-- runtime/rmi/rtt.c: a delegated granule becomes memory of a realm, and goes back.
use acai_rmm.Common.{ℕ, Bool, true, false, not, ◌&&◌, Option, none, some, ◌==◌, ◌!=◌, if◌then◌else◌}
use acai_rmm.State.{
  Platform, Rd, GranuleState, ns, delegated, rd, rtt, data_granule, same_state, realm_state_new,
  Command, pure, ◌>>=◌, ◌>>◌, read_granule, read_rd, write_rd, read_page, write_page, read_word,
  write_word,
}
use acai_rmm.Status.{rmi_success, rmi_error_input, rmi_error_realm, rmi_error_rtt, pack_return_code}
use acai_rmm.Granule.Ops.{
  granule_lock, granule_unlock, granule_unlock_transition, granule_get, granule_memzero,
}
use acai_rmm.Granule.Find.{find_granule}
use acai_rmm.Granule.Set.{find_lock_two_granules}
use acai_rmm.S2tt.Level.{rtt_page_level}
use acai_rmm.S2tt.Entry.{
  rmi_empty, s2tte_is_unassigned, s2tte_get_ripas, s2tte_create_assigned_empty, s2tte_create_valid,
}
use acai_rmm.S2tt.Walk.{RttWalk, rtt_walk_lock_unlock}
use acai_rmm.Rmi.Granule.{smc_attach_dev}
use acai_rmm.Rmi.Rtt.Validate.{validate_map_addr, addr_in_par}
use acai_rmm.Rmi.Rtt.Measure.{data_granule_measure, rmi_no_measure_content, rmi_measure_content}
use acai_rmm.Rmi.Rtt.Device.{
  measure_flag, dev_attach_flag, read_bar_sizes, read_ipa_pa, check_dev_addr_space,
}

unfoldable pub validate_data_create_unknown : ℕ → Rd → ℕ
validate_data_create_unknown map_addr d =
    if not (addr_in_par d map_addr)
    then rmi_error_input
    else if not (validate_map_addr map_addr rtt_page_level d)
    then rmi_error_input
    else rmi_success

unfoldable pub validate_data_create : ℕ → Rd → ℕ
unfolding validate_data_create_unknown
validate_data_create map_addr d =
    if d.state != realm_state_new then rmi_error_realm else validate_data_create_unknown map_addr d

-- `g_src` with what the copy from it gives: whether it succeeded, and the page it leaves.
pub record Source : Type 0 where
  pub ns_access_ok : Bool
  pub content : ℕ → ℕ

-- What the first half of `data_create` hands to its end: the returned code, the new state of the data
-- granule, and whether the copy succeeded.
pub record Created : Type 0 where
  pub ret : ℕ
  pub new_data_state : GranuleState
  pub copied : Bool

abbrev pub not_created : ℕ → Created
not_created ret = record { ret = ret; new_data_state = delegated; copied = false }

-- The entry and the reference of the new page, up to `out_unmap_ll_table`.
unfoldable pub map_data : ℕ → ℕ → Bool → RttWalk → Command Created
map_data data_addr ripas copied wi = do
  s2tte ←
      (if ripas == rmi_empty
        then s2tte_create_assigned_empty data_addr rtt_page_level
        else s2tte_create_valid data_addr rtt_page_level)
  write_word wi.g_llt wi.index s2tte
  granule_get wi.g_llt
  pure (record { ret = rmi_success; new_data_state = data_granule; copied = copied })

module _ (plat : Platform) where
  -- The copy and the measurement of the content, where there is a source.
  unfoldable pub fill_data : ℕ → ℕ → ℕ → Rd → ℕ → Option Source → ℕ → ℕ → RttWalk → Command Created
  unfolding map_data
  fill_data g_rd g_data data_addr d map_addr none flags ripas wi = map_data data_addr ripas false wi
  fill_data g_rd g_data data_addr d map_addr (some src) flags ripas wi = do
    write_page g_data src.content
    if not src.ns_access_ok
        then granule_memzero g_data >> pure (not_created rmi_error_input)
        else (do
          write_rd g_rd (data_granule_measure plat d src.content map_addr (measure_flag flags))
          map_data data_addr ripas true wi)

  unfoldable pub create_data_at : ℕ → ℕ → ℕ → Rd → ℕ → Option Source → ℕ → RttWalk → Command Created
  unfolding fill_data
  create_data_at g_rd g_data data_addr d map_addr src flags wi =
      if wi.last_level != rtt_page_level
      then (do ret ← pack_return_code rmi_error_rtt wi.last_level; pure (not_created ret))
      else (do
        s2tte ← read_word wi.g_llt wi.index
        if not (s2tte_is_unassigned s2tte)
            then (do ret ← pack_return_code rmi_error_rtt rtt_page_level; pure (not_created ret))
            else (do
              ripas ← s2tte_get_ripas s2tte
              fill_data g_rd g_data data_addr d map_addr src flags ripas wi))

  -- From the check of the parameters to `out_unmap_rd`.
  unfoldable pub create_data_walk : ℕ → ℕ → ℕ → Rd → ℕ → Option Source → ℕ → Command Created
  unfolding create_data_at validate_data_create
  create_data_walk g_rd g_data data_addr d map_addr src flags =
      let ret : ℕ = elim src [
        | some x ↦ validate_data_create map_addr d
        | none ↦ validate_data_create_unknown map_addr d
      ] in
      if ret != rmi_success then pure (not_created ret) else (do
        granule_lock d.s2_ctx.g_rtt rtt
        wi ←
            rtt_walk_lock_unlock plat d.s2_ctx.g_rtt d.s2_ctx.s2_starting_level d.s2_ctx.ipa_bits
              map_addr rtt_page_level
        created ← create_data_at g_rd g_data data_addr d map_addr src flags wi
        granule_unlock wi.g_llt
        pure created)

  -- The attachment of a device, after the locks were given back.
  unfoldable pub attach_data : ℕ → ℕ → ℕ → ℕ → ℕ → ℕ → ℕ → Command ℕ
  attach_data g_rd g_data data_addr rd_addr map_addr flags ret = do
    content ← read_page g_data
    let bars = read_ipa_pa content
    check ← check_dev_addr_space plat rd_addr (read_bar_sizes content) bars.0 bars.1
    if check != 0 then pure rmi_error_input else (do
      attached ← smc_attach_dev plat data_addr
      d ← read_rd g_rd
      after ← read_page g_data
      write_rd g_rd (data_granule_measure plat d after map_addr (measure_flag flags))
      pure ret)

  unfoldable pub data_create : ℕ → ℕ → ℕ → Option Source → ℕ → Command ℕ
  unfolding create_data_walk attach_data
  data_create data_addr rd_addr map_addr src flags = do
    locked ← find_lock_two_granules plat data_addr delegated rd_addr rd
    elim locked [
      | none ↦ pure rmi_error_input
      | some p ↦ (do
        d ← read_rd p.1
        created ← create_data_walk p.1 p.0 data_addr d map_addr src flags
        granule_unlock p.1
        granule_unlock_transition p.0 created.new_data_state
        if created.copied && dev_attach_flag flags != 0
            then attach_data p.1 p.0 data_addr rd_addr map_addr flags created.ret
            else pure created.ret)
    ]

  -- `ns_buffer_read` copies memory of the other world: what it gives for a granule is a parameter.
  unfoldable pub smc_data_create : (ℕ → Source) → ℕ → ℕ → ℕ → ℕ → ℕ → Command ℕ
  unfolding data_create
  smc_data_create ns_buffer_read data_addr rd_addr map_addr src_addr flags =
      if measure_flag flags != rmi_no_measure_content && measure_flag flags != rmi_measure_content
      then pure rmi_error_input
      else elim (find_granule plat src_addr) [
        | none ↦ pure rmi_error_input
        | some g_src ↦ (do
          x ← read_granule g_src
          if not (same_state x.state ns)
              then pure rmi_error_input
              else data_create data_addr rd_addr map_addr (some (ns_buffer_read g_src)) flags)
      ]

  unfoldable pub smc_data_create_unknown : ℕ → ℕ → ℕ → Command ℕ
  unfolding data_create
  smc_data_create_unknown data_addr rd_addr map_addr = data_create data_addr rd_addr map_addr none 0
