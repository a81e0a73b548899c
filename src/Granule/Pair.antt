-- ===== src/Granule/Pair.antt =====
-- lib/realm/src/granule.c, `find_lock_two_granules`: both granules are locked, or nothing changes.
use acai_rmm.Common.{
  ℕ, ◌≡◌, ◌≢◌, refl, Bool, true, false, ◌&&◌, not, ap, ◌∙◌, sym, arith, Option, none, some,
  if◌then◌else◌, Bool-cases, inl, inr, update, update_ne, ltb, ◌==◌, ==_comm,
}
use acai_rmm.State.{
  Platform, IsPlatform, GranuleState, same_state, Rmm, Outcome, done, pure, and_then,
}
use acai_rmm.Granule.Find.{find_granule}
use acai_rmm.Granule.Set.{
  SetArray, lock_from, unlock_down, sort_granules, sort_from, insert_at, shift_up, number_entries,
  store_results, two_granules, find_lock_granules, find_lock_two_granules,
}
use acai_rmm.Granule.Quiet.{locked, locked_comm, IsQuiet, unlock-locked}
use acai_rmm.Granule.Locking.{Ready, find_lock_granule_lem, find_granule-injective}

-- What locking two granules comes to: `same` says that the addresses are equal.
abbrev pub two_result :
    Bool → Option ℕ → GranuleState → Option ℕ → GranuleState → Rmm → Outcome (Option (ℕ × ℕ))
two_result same none st1 o2 st2 s = done none s
two_result same (some g1) st1 none st2 s = done none s
two_result same (some g1) st1 (some g2) st2 s =
    if not same && (same_state (s.granules g1).state st1 && same_state (s.granules g2).state st2)
    then done (some (g1, g2)) (locked g2 (locked g1 s))
    else done none s

-- The array in which the two entries point to their granules.
abbrev pointed : SetArray → ℕ → ℕ → SetArray
pointed a g h = let b = update a 0 (record (a 0) { g = g }) in update b 1 (record (b 1) { g = h })

abbrev array_result : Bool → Option ℕ → Option ℕ → SetArray → Rmm → Outcome (Option SetArray)
array_result same none o2 a s = done none s
array_result same (some g1) none a s = done none s
array_result same (some g1) (some g2) a s =
    if not same
      && (same_state (s.granules g1).state (a 0).state
          && same_state (s.granules g2).state (a 1).state)
    then done (some (pointed a g1 g2)) (locked g2 (locked g1 s))
    else done none s

array_result_same :
    (g1 : ℕ) (o2 : Option ℕ) (a : SetArray) (s : Rmm)
    → array_result true (some g1) o2 a s ≡ done none s
array_result_same g1 none a s = refl
array_result_same g1 (some g2) a s = refl

array_result_mismatch :
    (g1 : ℕ) (o2 : Option ℕ) (a : SetArray) (s : Rmm) (same : Bool)
    → same_state (s.granules g1).state (a 0).state ≡ false
    → array_result same (some g1) o2 a s ≡ done none s
array_result_mismatch g1 none a s same k = refl
array_result_mismatch g1 (some g2) a s true k = refl
array_result_mismatch g1 (some g2) a s false k = rw k

module _ (plat : Platform) (ok : IsPlatform plat) where
  Ready-quiet : (s : Rmm) → IsQuiet s → (addr g : ℕ) → find_granule plat addr ≡ some g → Ready s g
  Ready-quiet s quiet addr g h = (quiet.free g, quiet.counted g)

  distinct :
      (a b g h : ℕ)
      → find_granule plat a ≡ some g
      → find_granule plat b ≡ some h
      → (b == a) ≡ false
      → g ≢ h
  distinct a b g h p q ne e = ground (arith, find_granule-injective plat ok a b h (p ∙ ap some e) q)

  -- The second round, with the first granule locked and another address.
  second_round :
      (a : SetArray) (s : Rmm)
      → IsQuiet s
      → (g1 : ℕ) → find_granule plat (a 0).addr ≡ some g1
      → (o2 : Option ℕ) → find_granule plat (a 1).addr ≡ o2
      → same_state (s.granules g1).state (a 0).state ≡ true
      → ((a 1).addr == (a 0).addr) ≡ false
      → lock_from plat 1 1 (update a 0 (record (a 0) { g = g1 })) (locked g1 s)
        ≡ array_result false (some g1) o2 a s
  unfolding lock_from unlock_down
  second_round a s quiet g1 f1 none f2 e ne = rw (
    ne,
    find_lock_granule_lem plat (a 1).addr (a 1).state (locked g1 s) (λ g h. cc),
    f2,
    unlock-locked g1 s (quiet.free g1) (quiet.counted g1),
  )
  second_round a s quiet g1 f1 (some g2) f2 e ne =
      let apart = distinct (a 0).addr (a 1).addr g1 g2 f1 f2 ne in
      let same = update_ne s.granules g1 (record (s.granules g1) { lock = true }) g2 apart in
      rw
        (
          ne,
          find_lock_granule_lem plat (a 1).addr (a 1).state (locked g1 s)
              (λ g h. ground (arith, quiet.free g2, quiet.counted g2)),
          f2,
          same,
          e,
        )
        (elim (Bool-cases (same_state (s.granules g2).state (a 1).state)) [
          | inl k ↦ rw k
          | inr k ↦ rw (k, unlock-locked g1 s (quiet.free g1) (quiet.counted g1))
        ])

  -- Both rounds.
  both_rounds :
      (a : SetArray) (s : Rmm)
      → IsQuiet s
      → (o1 : Option ℕ) → find_granule plat (a 0).addr ≡ o1
      → (o2 : Option ℕ) → find_granule plat (a 1).addr ≡ o2
      → lock_from plat 2 0 a s ≡ array_result ((a 1).addr == (a 0).addr) o1 o2 a s
  unfolding lock_from unlock_down
  both_rounds a s quiet none f1 o2 f2 =
      rw (find_lock_granule_lem plat (a 0).addr (a 0).state s (λ g h. cc), f1)
  both_rounds a s quiet (some g1) f1 o2 f2 =
      rw (find_lock_granule_lem plat (a 0).addr (a 0).state s (Ready-quiet s quiet (a 0).addr), f1)
        (elim (Bool-cases (same_state (s.granules g1).state (a 0).state)) [
          | inl k ↦ rw k (elim (Bool-cases ((a 1).addr == (a 0).addr)) [
            | inl d ↦
                rw (d, unlock-locked g1 s (quiet.free g1) (quiet.counted g1))
                  (sym (array_result_same g1 o2 a s))
            | inr d ↦ second_round a s quiet g1 f1 o2 f2 k d ∙ rw d
          ])
          | inr k ↦ rw k (sym (array_result_mismatch g1 o2 a s _ k))
        ])

  module _ (a1 : ℕ) (st1 : GranuleState) (a2 : ℕ) (st2 : GranuleState) (s : Rmm) where
    -- The array as the sort leaves it, in the two orders.
    abbrev straight : SetArray
    straight =
        update
          (update (two_granules plat a1 st1 a2 st2) 0
            (record { idx = 0; addr = a1; state = st1; g = 0; g_ret = 0 }))
          1 (record { idx = 1; addr = a2; state = st2; g = 0; g_ret = 1 })

    abbrev swapped : SetArray
    swapped = update (update straight 1 (straight 0)) 0 (straight 1)

    -- What the callers do with the outcome of the locking loop.
    abbrev conclude : Outcome (Option SetArray) → Outcome (Option (ℕ × ℕ))
    conclude o =
        and_then
          (and_then o (λ locked. elim locked [
            | none ↦ pure none
            | some a ↦ pure (some (store_results 2 a (λ _. 0)))
          ]))
          (λ found. elim found [ none ↦ pure none | some out ↦ pure (some (out 0, out 1)) ])

    in_order :
        (same : Bool) (o1 o2 : Option ℕ)
        → conclude (array_result same o1 o2 straight s) ≡ two_result same o1 st1 o2 st2 s
    unfolding store_results
    in_order same none o2 = refl
    in_order same (some g1) none = refl
    in_order same (some g1) (some g2) = elim (Bool-cases (both same g1 g2)) [
      | inl e ↦ rw e
      | inr e ↦ rw e
    ]
      where
        both : Bool → ℕ → ℕ → Bool
        both same g1 g2 =
            not same
            && (same_state (s.granules g1).state st1 && same_state (s.granules g2).state st2)

    crossed :
        (same : Bool) (o1 o2 : Option ℕ)
        → ((g1 g2 : ℕ) → o1 ≡ some g1 → o2 ≡ some g2 → same ≡ false → g1 ≢ g2)
        → conclude (array_result same o2 o1 swapped s) ≡ two_result same o1 st1 o2 st2 s
    unfolding store_results
    crossed same none none apart = refl
    crossed same none (some g2) apart = refl
    crossed same (some g1) none apart = refl
    crossed true (some g1) (some g2) apart = refl
    crossed false (some g1) (some g2) apart =
        elim (Bool-cases (same_state (s.granules g1).state st1)) [
          | inl e1 ↦ elim (Bool-cases (same_state (s.granules g2).state st2)) [
            | inl e2 ↦
                rw (e1, e2)
                  (ap (done (some (g1, g2))) (locked_comm g1 g2 s (apart g1 g2 refl refl refl)))
            | inr e2 ↦ rw (e1, e2)
          ]
          | inr e1 ↦ elim (Bool-cases (same_state (s.granules g2).state st2)) [
            | inl e2 ↦ rw (e1, e2)
            | inr e2 ↦ rw (e1, e2)
          ]
        ]

  -- `find_lock_two_granules`, in a state with no lock held: it locks both granules and returns them
  -- when the addresses differ, both name a granule and both granules have the expected states;
  -- otherwise it returns nothing and the state is unchanged, so that no lock is held. The order of
  -- the addresses does not matter.
  pub find_lock_two_granules_lem :
      (a1 : ℕ) (st1 : GranuleState) (a2 : ℕ) (st2 : GranuleState) (s : Rmm)
      → IsQuiet s
      → find_lock_two_granules plat a1 st1 a2 st2 s
        ≡ two_result (a1 == a2) (find_granule plat a1) st1 (find_granule plat a2) st2 s
  unfolding find_lock_two_granules find_lock_granules sort_granules sort_from insert_at shift_up
      number_entries
  find_lock_two_granules_lem a1 st1 a2 st2 s quiet = elim (Bool-cases (ltb a2 a1)) [
    | inl less ↦
        rw
          (
            less,
            both_rounds (swapped a1 st1 a2 st2 s) s quiet (find_granule plat a2) refl
                (find_granule plat a1) refl,
          )
          (crossed a1 st1 a2 st2 s (a1 == a2) (find_granule plat a1) (find_granule plat a2)
            (λ g1 g2 f1 f2 ne. distinct a1 a2 g1 g2 f1 f2 (ground arith)))
    | inr more ↦
        rw
          (
            more,
            both_rounds (straight a1 st1 a2 st2 s) s quiet (find_granule plat a1) refl
                (find_granule plat a2) refl,
          )
          (in_order a1 st1 a2 st2 s (a2 == a1) (find_granule plat a1) (find_granule plat a2)
            ∙ ap (λ b. two_result b (find_granule plat a1) st1 (find_granule plat a2) st2 s)
                (==_comm a2 a1))
  ]
