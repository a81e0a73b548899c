-- ===== src/Granule/Locking.antt =====
-- lib/realm/src/granule.c, `find_granule` and `find_lock_granule`: which granule is found, and
-- what locking it does to the state.
use acai_rmm.Common.{
  ℕ, ◌%◌, ◌<◌, ◌≡◌, refl, true, false, ap, ◌∙◌, sym, arith, Option, none, some, if◌then◌else◌,
  Bool-cases, inl, inr,
}
use acai_rmm.State.{
  Platform, IsPlatform, granule_size, GranuleState, same_state, same_state_iff, Rmm, Outcome, done,
}
use acai_rmm.Granule.Ops.{unlocked_invariants}
use acai_rmm.Granule.Find.{find_granule, lock_found, find_lock_granule}
use acai_rmm.Granule.Quiet.{locked, lock-ok, lock-mismatch}

-- A granule that can be locked: its lock is free and the invariants hold.
abbrev pub Ready : Rmm → ℕ → Type 0
Ready s g =
    ((s.granules g).lock ≡ false)
    × (unlocked_invariants (s.granules g).refcount (s.granules g).state ≡ true)

-- What `find_lock_granule` returns for the granule that the address names.
abbrev pub lock_result : Option ℕ → GranuleState → Rmm → Outcome (Option ℕ)
lock_result none st s = done none s
lock_result (some g) st s =
    if same_state (s.granules g).state st then done (some g) (locked g s) else done none s

module _ (plat : Platform) where
  pub find_granule-some :
      (addr g : ℕ)
      → find_granule plat addr ≡ some g
      → (addr % granule_size ≡ 0)
        × (plat.addr_to_idx addr ≡ g)
        × (plat.addr_to_idx addr < plat.max_granules)
  unfolding find_granule
  find_granule-some addr g h = ground arith

  lock_found_lem :
      (o : Option ℕ) (st : GranuleState) (s : Rmm)
      → ((g : ℕ) → o ≡ some g → Ready s g)
      → lock_found plat o st s ≡ lock_result o st s
  unfolding lock_found
  lock_found_lem none st s ready = refl
  lock_found_lem (some g) st s ready = elim (Bool-cases (same_state (s.granules g).state st)) [
    | inl e ↦ rw (
      lock-ok g st s (ready g refl).0 ((same_state_iff (s.granules g).state st).0 e)
          (ground (arith, ready g refl, (same_state_iff (s.granules g).state st).0 e)),
      e,
    )
    | inr e ↦ rw (lock-mismatch g st s (ready g refl).0 e, e)
  ]

  -- `find_lock_granule`, where the granule that the address names is unlocked and meets the
  -- invariants of its state: it locks that granule when its state is the expected one; otherwise, and
  -- when there is no such granule, it returns nothing and the state is unchanged.
  pub find_lock_granule_lem :
      (addr : ℕ) (st : GranuleState) (s : Rmm)
      → ((g : ℕ) → find_granule plat addr ≡ some g → Ready s g)
      → find_lock_granule plat addr st s ≡ lock_result (find_granule plat addr) st s
  unfolding find_lock_granule
  find_lock_granule_lem addr st s ready = lock_found_lem (find_granule plat addr) st s ready

module _ (plat : Platform) (ok : IsPlatform plat) where
  -- Two addresses of one granule are the same address.
  pub find_granule-injective :
      (a b g : ℕ) → find_granule plat a ≡ some g → find_granule plat b ≡ some g → a ≡ b
  find_granule-injective a b g h k =
      let p = find_granule-some plat a g h in
      let q = find_granule-some plat b g k in
      sym (ok.there a p.0 p.2) ∙ ap plat.idx_to_addr (p.1 ∙ sym q.1) ∙ ok.there b q.0 q.2
