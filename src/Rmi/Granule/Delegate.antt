-- ===== src/Rmi/Granule/Delegate.antt =====
-- runtime/rmi/granule.c: the whole effect of delegating and undelegating a granule.
use acai_rmm.Common.{
  ℕ, ◌≡◌, refl, true, Option, none, some, ◌∙◌, arith, if◌then◌else◌, update, ◌∷◌, update-update,
  update-update_twice, update_same, Bool-cases, inl, inr,
}
use acai_rmm.State.{
  Platform, IsPlatform, ns, delegated, same_state, same_state_iff, Rmm, Outcome, done, ◌>>◌,
  mark_secure, mark_nonsecure, zero_rd, zero_rec,
}
use acai_rmm.Asc.{asc_mark_secure, asc_mark_nonsecure}
use acai_rmm.Status.{rmi_success, rmi_error_input}
use acai_rmm.Granule.Ops.{granule_set_state, granule_memzero, granule_unlock, unlocked_invariants}
use acai_rmm.Granule.Find.{find_granule}
use acai_rmm.Granule.Quiet.{IsQuiet}
use acai_rmm.Granule.Locking.{find_lock_granule_lem}
use acai_rmm.Rmi.Granule.{smc_granule_delegate, smc_granule_undelegate}

-- The state after a granule was delegated: its page is zero, and the monitor was told first.
abbrev pub delegated_state : ℕ → ℕ → Rmm → Rmm
delegated_state addr g s = record s {
  granules = update s.granules g (record (s.granules g) { state = delegated });
  page = update s.page g (λ _. 0);
  rds = update s.rds g zero_rd;
  recs = update s.recs g zero_rec;
  events = mark_secure addr ∷ s.events;
}

abbrev pub delegate_result : ℕ → Option ℕ → Rmm → Outcome ℕ
delegate_result addr none s = done rmi_error_input s
delegate_result addr (some g) s =
    if same_state (s.granules g).state ns
    then done rmi_success (delegated_state addr g s)
    else done rmi_error_input s

-- The state after a granule was undelegated.
abbrev pub undelegated_state : ℕ → ℕ → Rmm → Rmm
undelegated_state addr g s = record s {
  granules = update s.granules g (record (s.granules g) { state = ns });
  events = mark_nonsecure addr ∷ s.events;
}

abbrev pub undelegate_result : ℕ → Option ℕ → Rmm → Outcome ℕ
undelegate_result addr none s = done rmi_error_input s
undelegate_result addr (some g) s =
    if same_state (s.granules g).state delegated
    then done rmi_success (undelegated_state addr g s)
    else done rmi_error_input s

module _ (plat : Platform) (ok : IsPlatform plat) where
  delegate_found-result :
      (addr : ℕ) (o : Option ℕ) (s : Rmm)
      → find_granule plat addr ≡ o
      → IsQuiet s
      → smc_granule_delegate plat addr s ≡ delegate_result addr o s
  unfolding smc_granule_delegate asc_mark_secure granule_set_state granule_memzero granule_unlock
      unlocked_invariants
  delegate_found-result addr none s f quiet =
      rw (find_lock_granule_lem plat addr ns s (λ g h. cc), f)
  delegate_found-result addr (some g) s f quiet =
      rw (find_lock_granule_lem plat addr ns s (λ g h. (quiet.free g, quiet.counted g)), f)
        (elim (Bool-cases (same_state (s.granules g).state ns)) [
          | inl e ↦ rw e (
              ground (
                arith,
                ok.granted (mark_secure addr),
                quiet.free g,
                quiet.counted g,
                (same_state_iff (s.granules g).state ns).0 e,
                update-update_twice s.granules g (record (s.granules g) { lock = true })
                    (record (s.granules g) { lock = true; state = delegated })
                    (record (s.granules g) { state = delegated }),
              ))
          | inr e ↦ rw e
        ])

  -- `smc_granule_delegate`, in a state with no lock held: a non-secure granule becomes delegated
  -- with a zero page and stays unlocked; for any other address the state is unchanged.
  pub smc_granule_delegate_lem :
      (addr : ℕ) (s : Rmm)
      → IsQuiet s
      → smc_granule_delegate plat addr s ≡ delegate_result addr (find_granule plat addr) s
  smc_granule_delegate_lem addr s quiet =
      delegate_found-result addr (find_granule plat addr) s refl quiet

  undelegate_found-result :
      (addr : ℕ) (o : Option ℕ) (s : Rmm)
      → find_granule plat addr ≡ o
      → IsQuiet s
      → smc_granule_undelegate plat addr s ≡ undelegate_result addr o s
  unfolding smc_granule_undelegate asc_mark_nonsecure granule_set_state granule_unlock
      unlocked_invariants
  undelegate_found-result addr none s f quiet =
      rw (find_lock_granule_lem plat addr delegated s (λ g h. cc), f)
  undelegate_found-result addr (some g) s f quiet =
      rw (find_lock_granule_lem plat addr delegated s (λ g h. (quiet.free g, quiet.counted g)), f)
        (elim (Bool-cases (same_state (s.granules g).state delegated)) [
          | inl e ↦ rw e (
              ground (
                arith,
                ok.granted (mark_nonsecure addr),
                quiet.free g,
                quiet.counted g,
                (same_state_iff (s.granules g).state delegated).0 e,
                update-update_twice s.granules g (record (s.granules g) { lock = true })
                    (record (s.granules g) { lock = true; state = ns })
                    (record (s.granules g) { state = ns }),
              ))
          | inr e ↦ rw e
        ])

  -- `smc_granule_undelegate`, in a state with no lock held: a delegated granule becomes non-secure
  -- after the monitor was told; for any other address the state is unchanged.
  pub smc_granule_undelegate_lem :
      (addr : ℕ) (s : Rmm)
      → IsQuiet s
      → smc_granule_undelegate plat addr s ≡ undelegate_result addr (find_granule plat addr) s
  smc_granule_undelegate_lem addr s quiet =
      undelegate_found-result addr (find_granule plat addr) s refl quiet

  -- A delegated state is quiet again.
  pub delegated_state-IsQuiet :
      (addr g : ℕ) (s : Rmm)
      → (s.granules g).state ≡ ns
      → IsQuiet s
      → IsQuiet (delegated_state addr g s)
  unfolding unlocked_invariants
  delegated_state-IsQuiet addr g s e quiet = record {
    free = λ k. ground (arith, quiet.free k, quiet.free g);
    counted = λ k. ground (arith, quiet.counted k, quiet.counted g);
  }

  -- Delegating a non-secure granule and undelegating it succeeds and gives every granule its old
  -- entry back; the page of that granule is zero, and the monitor was told twice.
  pub undelegate-delegate :
      (addr g : ℕ) (s : Rmm)
      → IsQuiet s
      → find_granule plat addr ≡ some g
      → (s.granules g).state ≡ ns
      → (smc_granule_delegate plat addr >> smc_granule_undelegate plat addr) s
        ≡ done rmi_success (record s {
          page = update s.page g (λ _. 0);
          rds = update s.rds g zero_rd;
          recs = update s.recs g zero_rec;
          events = mark_nonsecure addr ∷ mark_secure addr ∷ s.events;
        })
  undelegate-delegate addr g s quiet f e =
      rw
        (
          smc_granule_delegate_lem addr s quiet,
          f,
          (same_state_iff (s.granules g).state ns).1 e,
          smc_granule_undelegate_lem addr (delegated_state addr g s)
              (delegated_state-IsQuiet addr g s e quiet),
          f,
        )
        (ground (
          arith,
          update-update s.granules g (record (s.granules g) { state = delegated })
                (record (s.granules g) { state = ns })
              ∙ update_same s.granules g (record (s.granules g) { state = ns }) (ground arith),
        ))
