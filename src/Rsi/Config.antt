-- ===== src/Rsi/Config.antt =====
-- runtime/rsi/config.c: a realm reads its configuration into one of its pages.
pub mod Uninitialised
use acai_rmm.Common.{ℕ, false, not, ◌||◌, none, some, if◌then◌else◌}
use acai_rmm.State.{
  Platform, Rec, Command, pure, ◌>>=◌, ◌>>◌, assert, read_rec, read_rd, write_word,
}
use acai_rmm.Granule.Ops.{granule_unlock}
use acai_rmm.Granule.Find.{granule_aligned, find_granule}
use acai_rmm.S2tt.Entry.{rmi_empty}
use acai_rmm.Rsi.Interface.{
  S2WalkStatus, walk_success, walk_invalid_params, walk_fail, S2WalkResult,
  s2_walk_result_match_ripas, RsiWalkSmcResult, to_realm, to_host, addr_in_rec_par, rsi_success,
  rsi_error_input,
}
use acai_rmm.Rsi.Ipa.{realm_ipa_to_pa}

module _ (plat : Platform) where
  -- `struct rsi_realm_config` starts with the width of the address space.
  unfoldable pub write_config : Rec → S2WalkResult → Command RsiWalkSmcResult
  write_config r walk_res = elim (find_granule plat walk_res.pa) [
    | none ↦ assert false >> pure (to_realm 0 0)
    | some gr ↦ (do
      write_word gr 0 r.realm_info.ipa_bits
      granule_unlock walk_res.llt
      pure (to_realm rsi_success 0))
  ]

  unfoldable pub config_walked : Rec → S2WalkStatus × S2WalkResult → Command RsiWalkSmcResult
  unfolding write_config
  config_walked r (walk_fail, walk_res) =
      if s2_walk_result_match_ripas walk_res rmi_empty
      then pure (to_realm rsi_error_input 0)
      else pure (to_host walk_res.rtt_level)
  config_walked r (walk_invalid_params, walk_res) = pure (to_realm rsi_error_input 0)
  config_walked r (walk_success, walk_res) = write_config r walk_res

  -- `walk_res` is the variable of the source, which is not initialised.
  unfoldable pub handle_rsi_realm_config : S2WalkResult → ℕ → Command RsiWalkSmcResult
  unfolding config_walked
  handle_rsi_realm_config walk_res g_rec = do
    r ← read_rec g_rec
    let ipa = r.regs 1
    if not (granule_aligned ipa) || not (addr_in_rec_par r ipa)
        then pure (to_realm rsi_error_input 0)
        else (do
          d ← read_rd r.realm_info.g_rd
          walked ← realm_ipa_to_pa plat d ipa walk_res
          config_walked r walked)
