-- ===== src/Rmi/Rec/Freeing.antt =====
-- runtime/rmi/rec.c: destroying an execution context gives its granules back with zero pages.
use acai_rmm.Common.{
  ℕ, zero, suc, ◌+◌, ◌≤◌, ◌<◌, ◌≡◌, ◌≢◌, refl, true, false, ap, ◌∙◌, arith, update, update-update,
  update_ne, sym, ℕ_discrete,
}
use acai_rmm.State.{Granule, delegated, rec_aux, Rmm, done, zero_rd, zero_rec}
use acai_rmm.Granule.Ops.{unlocked_invariants, granule_memzero, granule_unlock_transition}
use acai_rmm.Granule.Quiet.{locked, lock_granule-ok, unlock_transition-ok}
use acai_rmm.Granule.Clean.{IsCleanBut, freed, freed-IsCleanBut}
use acai_rmm.Rmi.Rec.Create.{free_aux_from}

-- An auxiliary granule that nobody holds.
pub record IsAux (s : Rmm) (g : ℕ) : Type 0 where
  pub free : (s.granules g).lock ≡ false
  pub is_aux : (s.granules g).state ≡ rec_aux
  pub unused : (s.granules g).refcount ≡ 0

-- The state after the auxiliary granules from `i` on were freed.
abbrev pub freed_from : ℕ → ℕ → (ℕ → ℕ) → Rmm → Rmm
freed_from zero i aux s = s
freed_from (suc k) i aux s = freed_from k (suc i) aux (freed (aux i) s)

-- The granules of an array from `i` on are distinct auxiliary granules.
pub record AreAux (k i : ℕ) (aux : ℕ → ℕ) (s : Rmm) : Type 0 where
  pub each : (j : ℕ) → i ≤ j → j < i + k → IsAux s (aux j)
  pub distinct : (j l : ℕ) → i ≤ j → j < l → l < i + k → aux j ≢ aux l

freed-IsAux : (s : Rmm) (g h : ℕ) → g ≢ h → IsAux s h → IsAux (freed g s) h
freed-IsAux s g h ne a = record {
  free = ground (arith, a.free);
  is_aux = ground (arith, a.is_aux);
  unused = ground (arith, a.unused);
}

freed-AreAux :
    (k i : ℕ) (aux : ℕ → ℕ) (s : Rmm)
    → AreAux (suc k) i aux s
    → AreAux k (suc i) aux (freed (aux i) s)
freed-AreAux k i aux s a = record {
  each = λ j lo hi.
      freed-IsAux s (aux i) (aux j) (a.distinct i j (omega arith) (omega arith) (omega arith))
        (a.each j (omega arith) (omega arith));
  distinct = λ j l lo lt hi. a.distinct j l (omega arith) lt (omega arith);
}

-- The page is zero, and the granule still locked.
abbrev pub scrubbed : ℕ → Rmm → Rmm
scrubbed g s = record s {
  page = update s.page g (λ _. 0);
  rds = update s.rds g zero_rd;
  recs = update s.recs g zero_rec;
}

-- Unlocking a granule that is held, with a zero page, as a delegated one.
unlock-scrubbed :
    (g : ℕ) (s : Rmm)
    → (s.granules g).refcount ≡ 0
    → granule_unlock_transition g delegated (scrubbed g (locked g s)) ≡ done tt (freed g s)
unfolding unlocked_invariants
unlock-scrubbed g s e =
    unlock_transition-ok g delegated (scrubbed g (locked g s)) (ground (arith, e))
    ∙ ground (
      arith,
      update-update s.granules g (record (s.granules g) { lock = true })
          (record (s.granules g) { lock = false; state = delegated }),
    )

-- One round of the loop.
free-one :
    (k i : ℕ) (aux : ℕ → ℕ) (s : Rmm)
    → IsAux s (aux i)
    → free_aux_from (suc k) i aux true s ≡ free_aux_from k (suc i) aux true (freed (aux i) s)
unfolding free_aux_from granule_memzero unlocked_invariants
free-one k i aux s a =
    rw
      (
        lock_granule-ok (aux i) rec_aux s a.free a.is_aux (ground (arith, a.unused)),
        unlock-scrubbed (aux i) s a.unused,
      )
      refl

pub free_aux_from_lem :
    (k i : ℕ) (aux : ℕ → ℕ) (s : Rmm)
    → AreAux k i aux s
    → free_aux_from k i aux true s ≡ done tt (freed_from k i aux s)
free_aux_from_lem zero i aux s a = unfold free_aux_from in refl
free_aux_from_lem (suc k) i aux s a =
    free-one k i aux s (a.each i (omega arith) (omega arith))
    ∙ free_aux_from_lem k (suc i) aux (freed (aux i) s) (freed-AreAux k i aux s a)

-- The other granules keep their entries.
pub freed_from-other :
    (k i : ℕ) (aux : ℕ → ℕ) (s : Rmm) (g : ℕ)
    → ((j : ℕ) → i ≤ j → j < i + k → aux j ≢ g)
    → (freed_from k i aux s).granules g ≡ s.granules g
freed_from-other zero i aux s g ne = refl
freed_from-other (suc k) i aux s g ne =
    freed_from-other k (suc i) aux (freed (aux i) s) g (λ j lo hi. ne j (omega arith) (omega arith))
    ∙ update_ne s.granules (aux i) (record (s.granules (aux i)) { lock = false; state = delegated })
        g (ne i (omega arith) (omega arith))

-- The granules of the array are delegated.
pub freed_from-aux :
    (k i : ℕ) (aux : ℕ → ℕ) (s : Rmm)
    → AreAux k i aux s
    → (j : ℕ) → i ≤ j
    → j < i + k
    → ((freed_from k i aux s).granules (aux j)).state ≡ delegated
freed_from-aux zero i aux s a j lo hi = absurd (omega arith)
freed_from-aux (suc k) i aux s a j lo hi = elim (ℕ_discrete i j) [
  | yes e ↦
      ap (λ x. Granule.state x)
        (ap (freed_from k (suc i) aux (freed (aux i) s)).granules (ap aux (sym e))
          ∙ freed_from-other k (suc i) aux (freed (aux i) s) (aux i)
              (λ l low high p. a.distinct i l (omega arith) (omega arith) (omega arith) (sym p)))
      ∙ ground arith
  | no ne ↦
      freed_from-aux k (suc i) aux (freed (aux i) s) (freed-AreAux k i aux s a) j (omega arith)
        (omega arith)
]

pub freed_from-IsCleanBut :
    (k i : ℕ) (aux : ℕ → ℕ) (s : Rmm) (g : ℕ)
    → AreAux k i aux s
    → IsCleanBut g s
    → IsCleanBut g (freed_from k i aux s)
freed_from-IsCleanBut zero i aux s g a but = but
freed_from-IsCleanBut (suc k) i aux s g a but =
    freed_from-IsCleanBut k (suc i) aux (freed (aux i) s) g (freed-AreAux k i aux s a)
      (freed-IsCleanBut g (aux i) s (a.each i (omega arith) (omega arith)).unused but)
