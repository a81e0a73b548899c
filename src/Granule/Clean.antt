-- ===== src/Granule/Clean.antt =====
-- The invariant that keeps data from leaking: between commands no lock is held, and the page of every
-- delegated granule is zero. In a command the granules that it holds are exempt.
use acai_rmm.Common.{ℕ, ◌≡◌, ◌≢◌, false, true, arith, update}
use acai_rmm.State.{delegated, rd, Rmm, zero_rd, zero_rec}
use acai_rmm.Granule.Ops.{unlocked_invariants}
use acai_rmm.Granule.Quiet.{IsQuiet, locked}

-- The page of a granule is zero in each of its views.
abbrev pub IsZero : Rmm → ℕ → Type 0
IsZero s g = (s.page g ≡ (λ _. 0)) × (s.rds g ≡ zero_rd) × (s.recs g ≡ zero_rec)

pub record IsClean (s : Rmm) : Type 0 where
  pub quiet : IsQuiet s
  pub zero : (g : ℕ) → (s.granules g).state ≡ delegated → IsZero s g

-- The state in which a granule became delegated with a zero page.
abbrev pub freed : ℕ → Rmm → Rmm
freed g s = record s {
  granules = update s.granules g (record (s.granules g) { lock = false; state = delegated });
  page = update s.page g (λ _. 0);
  rds = update s.rds g zero_rd;
  recs = update s.recs g zero_rec;
}

-- The invariant for every granule but one, which a command holds.
pub record IsCleanBut (g : ℕ) (s : Rmm) : Type 0 where
  pub free : (k : ℕ) → k ≢ g → (s.granules k).lock ≡ false
  pub counted :
      (k : ℕ) → k ≢ g → unlocked_invariants (s.granules k).refcount (s.granules k).state ≡ true
  pub zero : (k : ℕ) → k ≢ g → (s.granules k).state ≡ delegated → IsZero s k

pub locked-IsCleanBut : (g : ℕ) (s : Rmm) → IsClean s → IsCleanBut g (locked g s)
locked-IsCleanBut g s clean = record {
  free = λ k ne. ground (arith, clean.quiet.free k);
  counted = λ k ne. ground (arith, clean.quiet.counted k);
  zero = λ k ne h. ground (arith, clean.zero k);
}

pub freed-IsCleanBut :
    (g h : ℕ) (s : Rmm) → (s.granules h).refcount ≡ 0 → IsCleanBut g s → IsCleanBut g (freed h s)
unfolding unlocked_invariants
freed-IsCleanBut g h s e but = record {
  free = λ k ne. ground (arith, but.free k ne);
  counted = λ k ne. ground (arith, but.counted k ne);
  zero = λ k ne d. ground (arith, but.zero k ne);
}

-- The granule that was held is freed last.
pub freed-IsClean :
    (g : ℕ) (s : Rmm) → (s.granules g).refcount ≡ 0 → IsCleanBut g s → IsClean (freed g s)
unfolding unlocked_invariants
freed-IsClean g s e but = record {
  quiet = record {
    free = λ k. ground (arith, but.free k);
    counted = λ k. ground (arith, but.counted k);
  };
  zero = λ k d. ground (arith, but.zero k);
}

-- A realm descriptor may have any count.
pub counted-IsClean :
    (g n : ℕ) (s : Rmm)
    → (s.granules g).state ≡ rd
    → IsClean s
    → IsClean (record s { granules = update s.granules g (record (s.granules g) { refcount = n }) })
unfolding unlocked_invariants
counted-IsClean g n s e clean = record {
  quiet = record {
    free = λ k. ground (arith, clean.quiet.free k, clean.quiet.free g);
    counted = λ k. ground (arith, clean.quiet.counted k);
  };
  zero = λ k d. ground (arith, clean.zero k, clean.zero g);
}
