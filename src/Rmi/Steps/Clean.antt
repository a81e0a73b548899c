-- ===== src/Rmi/Steps/Clean.antt =====
-- The invariant that keeps data from leaking: between commands no lock is held, and the page of every
-- delegated granule is zero.
use mathlib.Core.Path.{subst}
use acai_rmm.Common.{
  ℕ, ◌≡◌, ◌⊎◌, refl, Option, none, some, ◌∙◌, sym, arith, Bool-cases, inl, inr, ◌==◌,
}
use acai_rmm.State.{
  Platform, IsPlatform, ns, delegated, data_granule, rd, same_state, same_state_iff, Rmm, Outcome,
  done, fault, write_page, realm_state_new,
}
use acai_rmm.Status.{rmi_success}
use acai_rmm.Granule.Ops.{unlocked_invariants}
use acai_rmm.Granule.Find.{find_granule}
use acai_rmm.Granule.Clean.{IsZero, IsClean}
use acai_rmm.Rmi.Granule.{smc_granule_undelegate}
use acai_rmm.Rmi.Granule.Delegate.{
  delegated_state, delegate_result, undelegated_state, undelegate_result, smc_granule_delegate_lem,
  smc_granule_undelegate_lem, delegated_state-IsQuiet,
}
use acai_rmm.Rmi.Realm.Laws.{activated_state, activate_result, smc_realm_activate_lem}
use acai_rmm.Rmi.Rec.Laws.{aux_count_result, smc_rec_aux_count_lem}
use acai_rmm.Rmi.Rec.Destroyed.{smc_rec_destroy_lem}
use acai_rmm.Rmi.Steps.{
  Step, delegate, undelegate, activate, aux_count, rec_destroy, write, Reach, here, next,
}

module _ (plat : Platform) (ok : IsPlatform plat) (addr g : ℕ) (s : Rmm) (clean : IsClean s) where
  delegated_state-IsClean : (s.granules g).state ≡ ns → IsClean (delegated_state addr g s)
  delegated_state-IsClean e = record {
    quiet = delegated_state-IsQuiet plat ok addr g s e clean.quiet;
    zero = λ k h. ground (arith, clean.zero k);
  }

module _ (addr g : ℕ) (s : Rmm) (clean : IsClean s) where
  undelegated_state-IsClean :
      (s.granules g).state ≡ delegated → IsClean (undelegated_state addr g s)
  unfolding unlocked_invariants
  undelegated_state-IsClean e = record {
    quiet = record {
      free = λ k. ground (arith, clean.quiet.free k, clean.quiet.free g);
      counted = λ k. ground (arith, clean.quiet.counted k, clean.quiet.counted g);
    };
    zero = λ k h. ground (arith, clean.zero k);
  }

  activated_state-IsClean : (s.granules g).state ≡ rd → IsClean (activated_state g s)
  activated_state-IsClean e = record {
    quiet = record { free = clean.quiet.free; counted = clean.quiet.counted };
    zero = λ k h. ground (arith, clean.zero k);
  }

-- A command that returned left a clean state.
abbrev Keeps {ℓ} : {R : Type ℓ} → Outcome R → Type 0
Keeps (done r t) = IsClean t
Keeps (fault f) = Unit

module _ (plat : Platform) (ok : IsPlatform plat) (addr : ℕ) (s : Rmm) (clean : IsClean s) where
  delegate_result-Keeps : (o : Option ℕ) → Keeps (delegate_result addr o s)
  delegate_result-Keeps none = clean
  delegate_result-Keeps (some g) = elim (Bool-cases (same_state (s.granules g).state ns)) [
    | inl e ↦ rw e (
        delegated_state-IsClean plat ok addr g s clean
          ((same_state_iff (s.granules g).state ns).0 e))
    | inr e ↦ rw e clean
  ]

  undelegate_result-Keeps : (o : Option ℕ) → Keeps (undelegate_result addr o s)
  undelegate_result-Keeps none = clean
  undelegate_result-Keeps (some g) = elim (Bool-cases (same_state (s.granules g).state delegated)) [
    | inl e ↦ rw e (
        undelegated_state-IsClean addr g s clean
          ((same_state_iff (s.granules g).state delegated).0 e))
    | inr e ↦ rw e clean
  ]

  activate_result-Keeps : (o : Option ℕ) → Keeps (activate_result o s)
  activate_result-Keeps none = clean
  activate_result-Keeps (some g) = elim (Bool-cases (same_state (s.granules g).state rd)) [
    | inl e ↦ rw e (elim (Bool-cases ((s.rds g).state == realm_state_new)) [
      | inl n ↦
          rw n
            (activated_state-IsClean addr g s clean ((same_state_iff (s.granules g).state rd).0 e))
      | inr n ↦ rw n clean
    ])
    | inr e ↦ rw e clean
  ]

  aux_count_result-Keeps : (o : Option ℕ) → Keeps (aux_count_result o s)
  aux_count_result-Keeps none = clean
  aux_count_result-Keeps (some g) = elim (Bool-cases (same_state (s.granules g).state rd)) [
    | inl e ↦ rw e clean
    | inr e ↦ rw e clean
  ]

module _ (plat : Platform) (ok : IsPlatform plat) where
  written-IsClean :
      (g : ℕ) (content : ℕ → ℕ) (s : Rmm)
      → IsClean s
      → ((s.granules g).state ≡ ns) ⊎ ((s.granules g).state ≡ data_granule)
      → Keeps (write_page g content s)
  written-IsClean g content s clean owned = record {
    quiet = record { free = clean.quiet.free; counted = clean.quiet.counted };
    zero = λ k h. ground (arith, clean.zero k, owned);
  }

  -- Every step of a clean state leads to a clean state.
  pub Step-IsClean : {s t : Rmm} → Step plat s t → IsClean s → IsClean t
  Step-IsClean {s} (delegate addr r h) clean =
      subst Keeps (sym (smc_granule_delegate_lem plat ok addr s clean.quiet) ∙ h)
        (delegate_result-Keeps plat ok addr s clean (find_granule plat addr))
  Step-IsClean {s} (undelegate addr r h) clean =
      subst Keeps (sym (smc_granule_undelegate_lem plat ok addr s clean.quiet) ∙ h)
        (undelegate_result-Keeps plat ok addr s clean (find_granule plat addr))
  Step-IsClean {s} (activate addr r h) clean =
      subst Keeps (sym (smc_realm_activate_lem plat addr s clean.quiet) ∙ h)
        (activate_result-Keeps plat ok addr s clean (find_granule plat addr))
  Step-IsClean {s} (aux_count addr r h) clean =
      subst Keeps (sym (smc_rec_aux_count_lem plat addr s clean.quiet) ∙ h)
        (aux_count_result-Keeps plat ok addr s clean (find_granule plat addr))
  Step-IsClean {s} (rec_destroy addr g r f ctx h) clean =
      let end = smc_rec_destroy_lem plat addr g s clean f ctx in subst Keeps (sym end.1 ∙ h) end.2
  Step-IsClean {s} (write g content owned h) clean =
      subst Keeps h (written-IsClean g content s clean owned)

  -- From a clean state, a run of any length leads to a clean state: no lock is held, and the page of
  -- every delegated granule is zero.
  pub Reach-IsClean : {s t : Rmm} → IsClean s → Reach plat s t → IsClean t
  Reach-IsClean clean here = clean
  Reach-IsClean clean (next r st) = Step-IsClean st (Reach-IsClean clean r)

  -- After a run from a clean state, undelegating a granule that is delegated succeeds, makes it
  -- non-secure, and the host finds a zero page there.
  pub undelegate-no-leak :
      {s t : Rmm} (addr g : ℕ)
      → IsClean s
      → Reach plat s t
      → find_granule plat addr ≡ some g
      → (t.granules g).state ≡ delegated
      → (u : Rmm) × (smc_granule_undelegate plat addr t ≡ done rmi_success u)
        × ((u.granules g).state ≡ ns)
        × IsZero u g
  undelegate-no-leak {s} {t} addr g clean run f e =
      let end = Reach-IsClean clean run in
      (
        undelegated_state addr g t,
        smc_granule_undelegate_lem plat ok addr t end.quiet
            ∙ rw (f, (same_state_iff (t.granules g).state delegated).1 e) refl,
        ground arith,
        end.zero g e,
      )
