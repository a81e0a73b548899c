-- ===== src/Rsi/Config/Uninitialised.antt =====
-- runtime/rsi/config.c and runtime/rsi/realm_ipa_helper.c: what a walk that fails tells the realm.
use acai_rmm.Common.{ℕ, ◌≡◌, refl, true, false, Bool-cases, inl, inr, arith, if◌then◌else◌}
use acai_rmm.State.{Platform, Rec, Rmm, done, ◌>>=◌}
use acai_rmm.Granule.Ops.{unlocked_invariants}
use acai_rmm.Granule.Quiet.{with_granule, unlock-ok}
use acai_rmm.S2tt.Entry.{
  rmi_empty, s2tte_is_unassigned, s2tte_is_valid, s2tte_is_destroyed, s2tte_get_ripas,
}
use acai_rmm.S2tt.Classes.{fields}
use acai_rmm.S2tt.Walk.{RttWalk}
use acai_rmm.Rsi.Interface.{
  S2WalkResult, s2_walk_result_match_ripas, to_realm, to_host, rsi_error_input,
}
use acai_rmm.Rsi.Ipa.{ipa_to_pa_at}
use acai_rmm.Rsi.Config.{config_walked}

-- An unassigned entry is neither valid nor destroyed.
not_mapped :
    (x level : ℕ)
    → s2tte_is_unassigned x ≡ true
    → (s2tte_is_valid x level ≡ false) × (s2tte_is_destroyed x ≡ false)
unfolding s2tte_is_unassigned s2tte_is_valid s2tte_is_destroyed
not_mapped x level h = (ground (arith, fields x, h), ground (arith, fields x, h))

-- For a page whose entry is unassigned with RIPAS EMPTY, the configuration call unlocks the table, and
-- its answer is that of the variable that was never set: where its member `destroyed` happens to be
-- false, the realm gets RSI_ERROR_INPUT as it should; where it happens to be true, the call exits to
-- the host.
pub config_walked-uninitialised :
    (plat : Platform) (r : Rec) (ipa : ℕ) (wi : RttWalk) (w : S2WalkResult) (s : Rmm)
    → s2tte_is_unassigned (s.page wi.g_llt wi.index) ≡ true
    → s2tte_get_ripas (s.page wi.g_llt wi.index) s ≡ done rmi_empty s
    → unlocked_invariants (s.granules wi.g_llt).refcount (s.granules wi.g_llt).state ≡ true
    → (ipa_to_pa_at ipa wi w >>= config_walked plat r) s
      ≡ done
          (if w.destroyed then to_host wi.last_level else to_realm rsi_error_input 0)
          (with_granule s wi.g_llt (record (s.granules wi.g_llt) { lock = false }))
unfolding ipa_to_pa_at config_walked s2_walk_result_match_ripas
config_walked-uninitialised plat r ipa wi w s un empty inv =
    let x : ℕ = s.page wi.g_llt wi.index in
    let m = not_mapped x wi.last_level un in
    rw (m.0, m.1, empty, unlock-ok wi.g_llt s inv)
      (elim (Bool-cases w.destroyed) [ inl e ↦ rw e refl | inr e ↦ rw e refl ])
