-- ===== src/Rsi/Ipa.antt =====
-- runtime/rsi/realm_ipa_helper.c: an address of a realm is translated, and its RIPAS is read.
use acai_rmm.Common.{ℕ, ◌+◌, ◌-◌, ◌%◌, ◌^◌, true, not, ◌||◌, if◌then◌else◌, bit_and}
use acai_rmm.State.{Platform, Rd, Rec, rtt, Command, pure, ◌>>=◌, ◌>>◌, assert, read_word}
use acai_rmm.Granule.Ops.{granule_lock, granule_unlock}
use acai_rmm.Granule.Find.{granule_aligned}
use acai_rmm.S2tt.Level.{rtt_page_level, s2tte_map_size}
use acai_rmm.S2tt.Entry.{s2tte_is_valid, s2tte_is_destroyed, s2tte_get_ripas, s2tte_pa, rmi_ram}
use acai_rmm.S2tt.Walk.{RttWalk, rtt_walk_lock_unlock}
use acai_rmm.Rmi.Rtt.Validate.{addr_in_par}
use acai_rmm.Rsi.Interface.{
  S2WalkStatus, walk_success, walk_invalid_params, walk_fail, S2WalkResult, addr_in_rec_par,
}

-- After the walk; `s2_walk` is what the variable of the caller holds before the call.
unfoldable pub ipa_to_pa_at : ℕ → RttWalk → S2WalkResult → Command (S2WalkStatus × S2WalkResult)
ipa_to_pa_at ipa wi s2_walk = do
  s2tte ← read_word wi.g_llt wi.index
  let walked = record s2_walk { llt = wi.g_llt }
  if not (s2tte_is_valid s2tte wi.last_level)
      then (if s2tte_is_destroyed s2tte
          then granule_unlock wi.g_llt
            >> pure (walk_fail, record walked { rtt_level = wi.last_level; destroyed = true })
          else (do
            ripas ← s2tte_get_ripas s2tte
            granule_unlock wi.g_llt
            pure (walk_fail, record walked { rtt_level = wi.last_level; ripas = ripas })))
      else (do
        pa ← s2tte_pa s2tte wi.last_level
        let offset = bit_and ipa (s2tte_map_size wi.last_level - 1)
        pure (walk_success, record walked { pa = (pa + offset) % 2 ^ 64; ripas = rmi_ram }))

-- What the query of the RIPAS returns: its value, or the level where the walk failed.
pub data RipasFound : Type 0 where
  ripas_is : ℕ → RipasFound
  destroyed_at : ℕ → RipasFound

module _ (plat : Platform) where
  unfoldable pub realm_ipa_to_pa : Rd → ℕ → S2WalkResult → Command (S2WalkStatus × S2WalkResult)
  unfolding ipa_to_pa_at
  realm_ipa_to_pa d ipa s2_walk =
      if not (granule_aligned ipa) || not (addr_in_par d ipa)
      then pure (walk_invalid_params, s2_walk)
      else (do
        granule_lock d.s2_ctx.g_rtt rtt
        wi ←
            rtt_walk_lock_unlock plat d.s2_ctx.g_rtt d.s2_ctx.s2_starting_level d.s2_ctx.ipa_bits
              ipa rtt_page_level
        ipa_to_pa_at ipa wi s2_walk)

  unfoldable pub realm_ipa_get_ripas : Rec → ℕ → Command RipasFound
  realm_ipa_get_ripas r ipa = do
    assert (granule_aligned ipa)
    assert (addr_in_rec_par r ipa)
    granule_lock r.realm_info.g_rtt rtt
    wi ←
        rtt_walk_lock_unlock plat r.realm_info.g_rtt r.realm_info.s2_starting_level
          r.realm_info.ipa_bits ipa rtt_page_level
    s2tte ← read_word wi.g_llt wi.index
    found ←
        (if s2tte_is_destroyed s2tte
          then pure (destroyed_at wi.last_level)
          else (do ripas ← s2tte_get_ripas s2tte; pure (ripas_is ripas)))
    granule_unlock wi.g_llt
    pure found
