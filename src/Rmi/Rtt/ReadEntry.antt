-- ===== src/Rmi/Rtt/ReadEntry.antt =====
-- runtime/rmi/rtt.c, `smc_rtt_read_entry`: the host reads the entry of an address.
use acai_rmm.Common.{ℕ, not, false, Option, none, some, if◌then◌else◌}
use acai_rmm.State.{Platform, rd, rtt, Command, pure, ◌>>=◌, ◌>>◌, assert, read_rd, read_word}
use acai_rmm.Status.{rmi_success, rmi_error_input}
use acai_rmm.Granule.Ops.{granule_lock, granule_unlock}
use acai_rmm.Granule.Find.{find_lock_granule}
use acai_rmm.S2tt.Entry.{
  rmi_empty, rmi_ram, s2tte_is_unassigned, s2tte_is_destroyed, s2tte_is_assigned, s2tte_is_valid,
  s2tte_is_valid_ns, s2tte_is_table, s2tte_get_ripas, s2tte_pa, s2tte_pa_table, host_ns_s2tte,
}
use acai_rmm.S2tt.Walk.{rtt_walk_lock_unlock}
use acai_rmm.Rmi.Rtt.Validate.{validate_rtt_entry_cmds}

-- The registers of `struct smc_result` that the handler sets.
pub record ReadResult : Type 0 where
  pub x0 : ℕ
  pub x1 : ℕ
  pub x2 : ℕ
  pub x3 : ℕ
  pub x4 : ℕ

abbrev pub rmi_rtt_state_unassigned : ℕ
rmi_rtt_state_unassigned = 0

abbrev pub rmi_rtt_state_destroyed : ℕ
rmi_rtt_state_destroyed = 1

abbrev pub rmi_rtt_state_assigned : ℕ
rmi_rtt_state_assigned = 2

abbrev pub rmi_rtt_state_table : ℕ
rmi_rtt_state_table = 3

abbrev pub rmi_rtt_state_valid_ns : ℕ
rmi_rtt_state_valid_ns = 4

-- An early return sets the first register and leaves the others, 0 here.
abbrev pub only_x0 : ℕ → ReadResult
only_x0 r = record { x0 = r; x1 = 0; x2 = 0; x3 = 0; x4 = 0 }

abbrev pub entry_registers : ℕ → ℕ → ℕ → ℕ → ReadResult
entry_registers level state pa ripas = record {
  x0 = rmi_success;
  x1 = level;
  x2 = state;
  x3 = pa;
  x4 = ripas;
}

-- The chain of cases over the entry, at the level where the walk ended.
unfoldable pub entry_result : ℕ → ℕ → Command ReadResult
entry_result s2tte level =
    if s2tte_is_unassigned s2tte
    then (do
      ripas ← s2tte_get_ripas s2tte
      pure (entry_registers level rmi_rtt_state_unassigned 0 ripas))
    else if s2tte_is_destroyed s2tte
    then pure (entry_registers level rmi_rtt_state_destroyed 0 0)
    else if s2tte_is_assigned s2tte level
    then (do
      pa ← s2tte_pa s2tte level
      pure (entry_registers level rmi_rtt_state_assigned pa rmi_empty))
    else if s2tte_is_valid s2tte level
    then (do
      pa ← s2tte_pa s2tte level
      pure (entry_registers level rmi_rtt_state_assigned pa rmi_ram))
    else if s2tte_is_valid_ns s2tte level
    then pure (entry_registers level rmi_rtt_state_valid_ns (host_ns_s2tte s2tte level) 0)
    else if s2tte_is_table s2tte level
    then (do pa ← s2tte_pa_table s2tte level; pure (entry_registers level rmi_rtt_state_table pa 0))
    else (assert false >> pure (only_x0 0))

module _ (plat : Platform) where
  unfoldable pub read_entry_locked : ℕ → ℕ → Option ℕ → Command ReadResult
  unfolding entry_result
  read_entry_locked map_addr level none = pure (only_x0 rmi_error_input)
  read_entry_locked map_addr level (some g_rd) = do
    d ← read_rd g_rd
    if not (validate_rtt_entry_cmds map_addr level d)
        then granule_unlock g_rd >> pure (only_x0 rmi_error_input)
        else (do
          granule_lock d.s2_ctx.g_rtt rtt
          granule_unlock g_rd
          wi ←
              rtt_walk_lock_unlock plat d.s2_ctx.g_rtt d.s2_ctx.s2_starting_level d.s2_ctx.ipa_bits
                map_addr level
          s2tte ← read_word wi.g_llt wi.index
          ret ← entry_result s2tte wi.last_level
          granule_unlock wi.g_llt
          pure ret)

  unfoldable pub smc_rtt_read_entry : ℕ → ℕ → ℕ → Command ReadResult
  unfolding read_entry_locked
  smc_rtt_read_entry rd_addr map_addr ulevel = do
    g_rd ← find_lock_granule plat rd_addr rd
    read_entry_locked map_addr ulevel g_rd
