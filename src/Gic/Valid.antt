-- ===== src/Gic/Valid.antt =====
-- lib/gic/src/gic.c, `gic_validate_state`: which list registers are accepted.
use acai_rmm.Common.{
  ℕ, zero, suc, ◌+◌, ◌≤◌, ◌<◌, ◌≡◌, ◌≢◌, ◌↔◌, refl, true, false, arith, Bool-cases, inl, inr,
  ℕ_discrete,
}
use acai_rmm.State.{GicCpuState}
use acai_rmm.Gic.{
  GicVirtFeature, lr_vintid, lr_is_invalid, lr_is_refused, has_duplicate, validate_from,
  gic_validate_state,
}

module _ (f : GicVirtFeature) (st : GicCpuState) where
  -- A list register that is in u.
  abbrev pub InUse : ℕ → Type 0
  InUse i = lr_is_invalid (st.ich_lr_el2 i) ≡ false

  -- No register from `j` on, of `k`, has the interrupt.
  has_duplicate_iff :
      (k j intid : ℕ)
      → (has_duplicate k j intid st ≡ false)
        ↔ ((l : ℕ) → j ≤ l → l < j + k → InUse l → intid ≢ lr_vintid (st.ich_lr_el2 l))
  unfolding has_duplicate
  has_duplicate_iff zero j intid = ((λ h l lo hi. absurd (omega arith)), λ h. refl)
  has_duplicate_iff (suc k) j intid =
      let rest = has_duplicate_iff k (suc j) intid in
      (
        (λ h l lo hi u. elim (ℕ_discrete j l) [
          | yes e ↦ ground (arith, h, u, e)
          | no ne ↦ rest.0 (ground (arith, h)) l (omega arith) (omega arith) u
        ]),
        λ h.
            let tail = rest.1 (λ l lo hi. h l (omega arith) (omega arith)) in
            ground (arith, tail, h j (omega arith) (omega arith)),
      )

  -- The registers from `i` on, of `k`, are accepted, and no two that are in use share an interrupt.
  abbrev Accepted : ℕ → ℕ → Type 0
  Accepted k i =
      ((l : ℕ) → i ≤ l → l < i + k → InUse l → lr_is_refused f (st.ich_lr_el2 l) ≡ false)
      × ((l m : ℕ)
          → i ≤ l
          → l < m
          → m < i + k
          → InUse l
          → InUse m
          → lr_vintid (st.ich_lr_el2 l) ≢ lr_vintid (st.ich_lr_el2 m))

  validate_from-Accepted : (k i : ℕ) → validate_from k i f st ≡ true → Accepted k i
  unfolding validate_from
  validate_from-Accepted zero i h =
      ((λ l lo hi u. absurd (omega arith)), λ l m lo lt hi u v. absurd (omega arith))
  validate_from-Accepted (suc k) i h =
      let rest = validate_from-Accepted k (suc i) (ground (arith, h)) in
      (
        (λ l lo hi u. elim (ℕ_discrete i l) [
          | yes e ↦ ground (arith, h, u, e)
          | no ne ↦ rest.0 l (omega arith) (omega arith) u
        ]),
        λ l m lo lt hi u v. elim (ℕ_discrete i l) [
          | yes e ↦
              let at_i : lr_is_invalid (st.ich_lr_el2 i) ≡ false = ground (arith, u, e) in
              let apart =
                (has_duplicate_iff k (suc i) (lr_vintid (st.ich_lr_el2 i))).0
                  (ground (arith, h, at_i)) m (omega arith) (omega arith) v in
              ground (arith, apart, e)
          | no ne ↦ rest.1 l m (omega arith) lt (omega arith) u v
        ],
      )

  Accepted-validate_from : (k i : ℕ) → Accepted k i → validate_from k i f st ≡ true
  unfolding validate_from
  Accepted-validate_from zero i a = refl
  Accepted-validate_from (suc k) i a =
      let rest = Accepted-validate_from k (suc i) (
        (λ l lo hi u. a.0 l (omega arith) (omega arith) u),
        λ l m lo lt hi u v. a.1 l m (omega arith) lt (omega arith) u v,
      ) in
      elim (Bool-cases (lr_is_invalid (st.ich_lr_el2 i))) [
        | inl e ↦ rw e rest
        | inr e ↦
            let no_other =
              (has_duplicate_iff k (suc i) (lr_vintid (st.ich_lr_el2 i))).1
                (λ l lo hi u. a.1 i l (omega arith) (omega arith) (omega arith) e u) in
            rw (e, a.0 i (omega arith) (omega arith) e, no_other) rest
      ]

-- `gic_validate_state` accepts the list registers exactly when each register in use passes the tests
-- of one register and no two registers in use hold the same interrupt; the registers are those up to
-- `nr_lrs`, that one included.
pub gic_validate_state_iff :
    (f : GicVirtFeature) (st : GicCpuState)
    → (gic_validate_state f st ≡ true) ↔ (
        ((l : ℕ) → l ≤ f.nr_lrs → InUse f st l → lr_is_refused f (st.ich_lr_el2 l) ≡ false)
        × ((l m : ℕ)
            → l < m
            → m ≤ f.nr_lrs
            → InUse f st l
            → InUse f st m
            → lr_vintid (st.ich_lr_el2 l) ≢ lr_vintid (st.ich_lr_el2 m)))
unfolding gic_validate_state
gic_validate_state_iff f st = (
  (λ h.
      let a = validate_from-Accepted f st (suc f.nr_lrs) 0 h in
      (
        (λ l le u. a.0 l (omega arith) (omega arith) u),
        λ l m lt le u v. a.1 l m (omega arith) lt (omega arith) u v,
      )),
  λ a.
      Accepted-validate_from f st (suc f.nr_lrs) 0
        ((λ l lo hi u. a.0 l (omega arith) u), λ l m lo lt hi u v. a.1 l m lt (omega arith) u v),
)
