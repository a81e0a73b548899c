-- ===== src/Granule/Quiet.antt =====
-- What the lock operations of lib/realm/include/granule.h do, from a state in which the lock is free.
use acai_rmm.Common.{
  ℕ, ◌≡◌, ◌≢◌, fun_ext, refl, true, false, ap, ◌∙◌, arith, update, update_same, update-update,
}
use acai_rmm.State.{Granule, GranuleState, same_state, same_state_iff, Rmm, done}
use acai_rmm.Granule.Ops.{
  unlocked_invariants, granule_lock_on_state_match, granule_lock, granule_unlock,
  granule_unlock_transition,
}

-- The state with other granules.
abbrev pub with_granules : Rmm → (ℕ → Granule) → Rmm
with_granules s gr = record s { granules = gr }

-- The state with another entry for one granule.
abbrev pub with_granule : Rmm → ℕ → Granule → Rmm
with_granule s g x = with_granules s (update s.granules g x)

abbrev pub locked : ℕ → Rmm → Rmm
locked g s = with_granule s g (record (s.granules g) { lock = true })

pub locked_comm : (g h : ℕ) (s : Rmm) → g ≢ h → locked g (locked h s) ≡ locked h (locked g s)
locked_comm g h s ne = ap (with_granules s) (fun_ext λ k. ground arith)

-- Every granule is unlocked and meets the invariants of an unlocked granule.
pub record IsQuiet (s : Rmm) : Type 0 where
  pub free : (g : ℕ) → (s.granules g).lock ≡ false
  pub counted : (g : ℕ) → unlocked_invariants (s.granules g).refcount (s.granules g).state ≡ true

-- Taking a free lock and giving it back changes nothing.
relocked : (gr : ℕ → Granule) (g : ℕ) (x y : Granule) → gr g ≡ y → update (update gr g x) g y ≡ gr
relocked gr g x y h = update-update gr g x y ∙ update_same gr g y h

module _ (g : ℕ) (st : GranuleState) (s : Rmm) (free : (s.granules g).lock ≡ false) where
  pub lock-ok :
      (s.granules g).state ≡ st
      → unlocked_invariants (s.granules g).refcount st ≡ true
      → granule_lock_on_state_match g st s ≡ done true (locked g s)
  unfolding granule_lock_on_state_match
  lock-ok e inv = ground (arith, (same_state_iff (s.granules g).state st).1 e)

  pub lock-mismatch :
      same_state (s.granules g).state st ≡ false → granule_lock_on_state_match g st s ≡ done false s
  unfolding granule_lock_on_state_match
  lock-mismatch e = ground (
    arith,
    ap (with_granules s) (
        relocked s.granules g (record (s.granules g) { lock = true })
          (record (s.granules g) { lock = false }) (ground arith)),
  )

  pub lock_granule-ok :
      (s.granules g).state ≡ st
      → unlocked_invariants (s.granules g).refcount st ≡ true
      → granule_lock g st s ≡ done tt (locked g s)
  unfolding granule_lock
  lock_granule-ok e inv = rw (lock-ok e inv) refl

-- Unlocking a granule whose entry is `x`, with the invariants of its state.
pub unlock-ok :
    (g : ℕ) (s : Rmm)
    → unlocked_invariants (s.granules g).refcount (s.granules g).state ≡ true
    → granule_unlock g s ≡ done tt (with_granule s g (record (s.granules g) { lock = false }))
unfolding granule_unlock
unlock-ok g s inv = ground arith

pub unlock_transition-ok :
    (g : ℕ) (st : GranuleState) (s : Rmm)
    → unlocked_invariants (s.granules g).refcount st ≡ true
    → granule_unlock_transition g st s
      ≡ done tt (with_granule s g (record (s.granules g) { lock = false; state = st }))
unfolding granule_unlock_transition granule_unlock
unlock_transition-ok g st s inv = ground (
  arith,
  update-update s.granules g (record (s.granules g) { state = st })
      (record (s.granules g) { lock = false; state = st }),
)

-- Locking a free granule and unlocking it again.
pub unlock-locked :
    (g : ℕ) (s : Rmm)
    → (s.granules g).lock ≡ false
    → unlocked_invariants (s.granules g).refcount (s.granules g).state ≡ true
    → granule_unlock g (locked g s) ≡ done tt s
unfolding granule_unlock
unlock-locked g s free inv = ground (
  arith,
  ap (with_granules s) (
      relocked s.granules g (record (s.granules g) { lock = true })
        (record (s.granules g) { lock = false }) (ground arith)),
)
