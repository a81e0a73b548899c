-- ===== src/Core/Area/Tables.antt =====
-- The locks, the walk and the translation of an address leave the area of the host alone.
use acai_rmm.Common.{ℕ, zero, suc, Option, none, some}
use acai_rmm.State.{Platform, Rd, Rec, GranuleState, pure, ◌>>◌}
use acai_rmm.Granule.Ops.{
  spinlock_acquire, spinlock_release, granule_get_state, granule_assert_unlocked_invariants,
  granule_lock_on_state_match, granule_lock, granule_unlock,
}
use acai_rmm.Granule.Find.{find_granule, addr_to_granule, lock_found, find_lock_granule}
use acai_rmm.S2tt.Entry.{s2tte_get_ripas, s2tte_pa}
use acai_rmm.S2tt.Walk.{
  find_next_level_idx, lock_if, find_lock_next_level, set_g_tbls, walk_from, concat_root,
  rtt_walk_lock_unlock,
}
use acai_rmm.Rsi.Interface.{S2WalkResult}
use acai_rmm.Rsi.Ipa.{ipa_to_pa_at, realm_ipa_to_pa, realm_ipa_get_ripas}
use acai_rmm.Core.Area.Keeps.{Area, Keeps, keeps_rules, Keeps-bind}

spinlock_acquire-Keeps : {a : Area} (g : ℕ) → Keeps a (spinlock_acquire g)
unfolding spinlock_acquire
spinlock_acquire-Keeps g = search keeps_rules

invariants-Keeps :
    {a : Area} (g : ℕ) (st : GranuleState) → Keeps a (granule_assert_unlocked_invariants g st)
unfolding granule_assert_unlocked_invariants
invariants-Keeps g st = search keeps_rules

spinlock_release-Keeps : {a : Area} (g : ℕ) → Keeps a (spinlock_release g)
unfolding spinlock_release
spinlock_release-Keeps g = search keeps_rules

lock_on_state_match-Keeps :
    {a : Area} (g : ℕ) (st : GranuleState) → Keeps a (granule_lock_on_state_match g st)
unfolding granule_lock_on_state_match granule_get_state
lock_on_state_match-Keeps g st =
    search (keeps_rules, spinlock_acquire-Keeps, spinlock_release-Keeps, invariants-Keeps)

pub granule_lock-Keeps : {a : Area} (g : ℕ) (st : GranuleState) → Keeps a (granule_lock g st)
unfolding granule_lock
granule_lock-Keeps g st = search (keeps_rules, lock_on_state_match-Keeps)

pub granule_unlock-Keeps : {a : Area} (g : ℕ) → Keeps a (granule_unlock g)
unfolding granule_unlock granule_get_state
granule_unlock-Keeps g = search (keeps_rules, spinlock_release-Keeps, invariants-Keeps)

ruleset lock_rules = (keeps_rules, granule_lock-Keeps, granule_unlock-Keeps)

module _ (plat : Platform) where
  lock_if-Keeps : {a : Area} (o : Option ℕ) → Keeps a (lock_if plat o)
  unfolding lock_if
  lock_if-Keeps none = search keeps_rules
  lock_if-Keeps (some g) = search lock_rules

  next_level-Keeps : {a : Area} (g addr i : ℕ) → Keeps a (find_lock_next_level plat g addr i)
  unfolding find_lock_next_level find_next_level_idx addr_to_granule
  next_level-Keeps g addr i = search (lock_rules, lock_if-Keeps) depth 12

  set_g_tbls-Keeps : {a : Area} (level : ℕ) → Keeps a (set_g_tbls level)
  unfolding set_g_tbls
  set_g_tbls-Keeps level = search keeps_rules

  walk_from-Keeps : {a : Area} (k i g addr : ℕ) → Keeps a (walk_from plat k i g addr)
  unfolding walk_from
  walk_from-Keeps zero i g addr = search keeps_rules
  walk_from-Keeps (suc k) i g addr =
      Keeps-bind (find_lock_next_level plat g addr i) _ (next_level-Keeps g addr i)
        (by_next (λ (h : ℕ). walk_from-Keeps k (suc i) h addr))
    where
      by_next :
          {a : Area}
          → ((h : ℕ) → Keeps a (walk_from plat k (suc i) h addr))
          → (o : Option ℕ)
          → Keeps {A = ℕ × ℕ} a (
              set_g_tbls (suc i) >> elim o [
                | none ↦ pure (i, g)
                | some g' ↦ granule_unlock g >> walk_from plat k (suc i) g' addr
              ])
      by_next ih none = search (keeps_rules, set_g_tbls-Keeps)
      by_next ih (some g') = search (lock_rules, set_g_tbls-Keeps, ih)

  pub walk-Keeps :
      {a : Area} (g start bits addr level : ℕ)
      → Keeps a (rtt_walk_lock_unlock plat g start bits addr level)
  unfolding rtt_walk_lock_unlock concat_root
  walk-Keeps g start bits addr level =
      search (lock_rules, set_g_tbls-Keeps, walk_from-Keeps) depth 12

  pub ipa_to_pa-Keeps :
      {a : Area} (d : Rd) (ipa : ℕ) (w : S2WalkResult) → Keeps a (realm_ipa_to_pa plat d ipa w)
  unfolding realm_ipa_to_pa ipa_to_pa_at s2tte_get_ripas s2tte_pa
  ipa_to_pa-Keeps d ipa w = search (lock_rules, walk-Keeps) depth 16

  pub get_ripas-Keeps : {a : Area} (r : Rec) (ipa : ℕ) → Keeps a (realm_ipa_get_ripas plat r ipa)
  unfolding realm_ipa_get_ripas s2tte_get_ripas
  get_ripas-Keeps r ipa = search (lock_rules, walk-Keeps) depth 16

  pub find_lock_granule-Keeps :
      {a : Area} (addr : ℕ) (st : GranuleState) → Keeps a (find_lock_granule plat addr st)
  unfolding find_lock_granule lock_found
  find_lock_granule-Keeps addr st = by_found (find_granule plat addr)
    where
      by_found : {a : Area} (o : Option ℕ) → Keeps a (lock_found plat o st)
      by_found none = search keeps_rules
      by_found (some g) = search (keeps_rules, lock_on_state_match-Keeps)
