-- ===== src/S2tt/Descent.antt =====
-- lib/realm/src/s2tt.c, `rtt_walk_lock_unlock`: the walk that locks hand over hand finds the table
-- that a plain descent finds.
use acai_rmm.Common.{
  ℕ, zero, suc, ◌+◌, ◌-◌, ◌/◌, ◌≤◌, ◌<◌, ◌≡◌, ◌≢◌, refl, sym, ap, ◌∙◌, true, false, arith, leb, ltb,
  if◌then◌else◌, Bool-cases, inl, inr, none, some,
}
use acai_rmm.State.{Platform, rtt, Rmm, done}
use acai_rmm.Granule.Ops.{granule_lock, granule_unlock, unlocked_invariants}
use acai_rmm.Granule.Find.{addr_to_granule, granule_aligned}
use acai_rmm.Granule.Quiet.{IsQuiet, locked, locked_comm, lock_granule-ok, unlock-locked}
use acai_rmm.S2tt.Level.{
  s2_addr_to_idx, s2_sl_addr_to_idx, addr_level_mask-level, shift_left, s2ttes_per_s2tt,
}
use acai_rmm.S2tt.Entry.{entry_is_table, table_entry_to_phys}
use acai_rmm.S2tt.Walk.{walk_from, concat_root, rtt_walk_lock_unlock, find_lock_next_level}

-- The granule that a table entry names.
abbrev pub child : Platform → Rmm → ℕ → ℕ → ℕ
child plat s g idx = plat.addr_to_idx (table_entry_to_phys (s.page g idx))

-- The descent without locks: at most `k` levels from table `g` at level `i`.
abbrev pub descend : Platform → Rmm → ℕ → ℕ → ℕ → ℕ → ℕ × ℕ
descend plat s zero i g map_addr = (i, g)
descend plat s (suc k) i g map_addr =
    if entry_is_table (s.page g (s2_addr_to_idx map_addr i))
    then descend plat s k (suc i) (child plat s g (s2_addr_to_idx map_addr i)) map_addr
    else (i, g)

-- The tables have levels: the table that a table entry of a table of
-- level below 3 names is one
-- level down. An entry of a table of level 3 names a page, and nothing is asked
-- of it.
pub record IsLinked (plat : Platform) (level_of : ℕ → ℕ) (s : Rmm) : Type 0 where
  pub in_range :
      (g idx : ℕ)
      → (s.granules g).state ≡ rtt
      → level_of g < 3
      → entry_is_table (s.page g idx) ≡ true
      → child plat s g idx < plat.max_granules
  pub is_table :
      (g idx : ℕ)
      → (s.granules g).state ≡ rtt
      → level_of g < 3
      → entry_is_table (s.page g idx) ≡ true
      → (s.granules (child plat s g idx)).state ≡ rtt
  pub next_level :
      (g idx : ℕ)
      → (s.granules g).state ≡ rtt
      → level_of g < 3
      → entry_is_table (s.page g idx) ≡ true
      → level_of (child plat s g idx) ≡ suc (level_of g)

phys-aligned : (x : ℕ) → granule_aligned (table_entry_to_phys x) ≡ true
unfolding granule_aligned table_entry_to_phys
phys-aligned x = ground (arith, addr_level_mask-level x 3 (omega arith))

-- A lock goes from one table to another.
lock_other :
    (g h : ℕ) (s : Rmm)
    → IsQuiet s
    → (s.granules h).state ≡ rtt
    → h ≢ g
    → granule_lock h rtt (locked g s) ≡ done tt (locked h (locked g s))
unfolding unlocked_invariants
lock_other g h s quiet e ne =
    lock_granule-ok h rtt (locked g s) (ground (arith, quiet.free h)) (ground arith) (ground arith)

unlock_first :
    (g h : ℕ) (s : Rmm)
    → IsQuiet s
    → h ≢ g
    → granule_unlock g (locked h (locked g s)) ≡ done tt (locked h s)
unlock_first g h s quiet ne =
    rw (locked_comm h g s ne) (
      unlock-locked g (locked h s) (ground (arith, quiet.free g)) (ground (arith, quiet.counted g)))

-- The root table that holds the address: the tables of the starting level follow each other.
abbrev pub root_of : ℕ → ℕ → ℕ
root_of g_root sl_idx = g_root + sl_idx / s2ttes_per_s2tt

same_root :
    (g_root sl_idx : ℕ) → leb s2ttes_per_s2tt sl_idx ≡ false → root_of g_root sl_idx ≡ g_root
same_root g_root sl_idx b = ground (arith, b)

leb-true : {a b : ℕ} → a ≤ b → leb a b ≡ true
leb-true h = ground arith

at_least_zero : (a : ℕ) → leb 0 a ≡ true
at_least_zero a = ground arith

in_bound : {a b : ℕ} → a < b → ltb a b ≡ true
in_bound h = ground arith

module _ (plat : Platform) (level_of : ℕ → ℕ) where
  find_lock_next_level-leaf :
      (g map_addr i : ℕ) (s : Rmm)
      → entry_is_table (s.page g (s2_addr_to_idx map_addr i)) ≡ false
      → find_lock_next_level plat g map_addr i (locked g s) ≡ done none (locked g s)
  unfolding find_lock_next_level
  find_lock_next_level-leaf g map_addr i s t = rw t refl

  other_child :
      (g idx : ℕ) (s : Rmm)
      → IsLinked plat level_of s
      → (s.granules g).state ≡ rtt
      → level_of g < 3
      → entry_is_table (s.page g idx) ≡ true
      → child plat s g idx ≢ g
  other_child g idx s link e lv t p =
      let up : level_of g ≡ suc (level_of g) = ap level_of (sym p) ∙ link.next_level g idx e lv t in
      absurd (omega (arith, up))

  find_lock_next_level-table :
      (g map_addr i : ℕ) (s : Rmm)
      → IsQuiet s
      → IsLinked plat level_of s
      → (s.granules g).state ≡ rtt
      → level_of g < 3
      → entry_is_table (s.page g (s2_addr_to_idx map_addr i)) ≡ true
      → find_lock_next_level plat g map_addr i (locked g s)
        ≡ done
            (some (child plat s g (s2_addr_to_idx map_addr i)))
            (locked (child plat s g (s2_addr_to_idx map_addr i)) (locked g s))
  unfolding find_lock_next_level addr_to_granule
  find_lock_next_level-table g map_addr i s quiet link e lv t =
      let idx = s2_addr_to_idx map_addr i in
      rw (t, phys-aligned (s.page g idx), in_bound (link.in_range g idx e lv t))
        (ground (
          arith,
          lock_other g (child plat s g idx) s quiet (link.is_table g idx e lv t)
              (other_child g idx s link e lv t),
        ))

  walk_from-descend :
      (k i g map_addr : ℕ) (s : Rmm)
      → IsQuiet s
      → IsLinked plat level_of s
      → (s.granules g).state ≡ rtt
      → level_of g ≡ i
      → i + k ≤ 3
      → walk_from plat k i g map_addr (locked g s)
        ≡ done (descend plat s k i g map_addr) (locked (descend plat s k i g map_addr).1 s)
  unfolding walk_from
  walk_from-descend zero i g map_addr s quiet link e lv le = refl
  walk_from-descend (suc k) i g map_addr s quiet link e lv le =
      let idx = s2_addr_to_idx map_addr i in
      let h = child plat s g idx in
      let below : level_of g < 3 = omega (arith, lv, le) in
      let fits : ltb (suc i) 4 ≡ true = in_bound (omega (arith, le)) in
      elim (Bool-cases (entry_is_table (s.page g idx))) [
        | inl t ↦
            rw
              (
                t,
                find_lock_next_level-table g map_addr i s quiet link e below t,
                fits,
                unlock_first g h s quiet (other_child g idx s link e below t),
              )
              (walk_from-descend k (suc i) h map_addr s quiet link (link.is_table g idx e below t)
                (link.next_level g idx e below t ∙ ap suc lv) (omega (arith, le)))
        | inr t ↦ rw (t, find_lock_next_level-leaf g map_addr i s t, fits) refl
      ]

  concat_root-locked :
      (g_root sl_idx : ℕ) (s : Rmm)
      → IsQuiet s
      → (s.granules (root_of g_root sl_idx)).state ≡ rtt
      → concat_root plat g_root sl_idx (locked g_root s)
        ≡ done (root_of g_root sl_idx) (locked (root_of g_root sl_idx) s)
  unfolding concat_root
  concat_root-locked g_root sl_idx s quiet e = elim (Bool-cases (leb s2ttes_per_s2tt sl_idx)) [
    | inl b ↦
        rw
          (
            b,
            lock_other g_root (root_of g_root sl_idx) s quiet e (λ p. ground (arith, b, p)),
            unlock_first g_root (root_of g_root sl_idx) s quiet (λ p. ground (arith, b, p)),
          )
          refl
    | inr b ↦ rw (b, same_root g_root sl_idx b) refl
  ]

  -- In a state with no lock held, where each table entry of a table of the levels 0 to 2 names a table
  -- one level down: the walk to a level from the starting one to 3, from the locked root table, of
  -- an address below the end of the address space whose root table has the starting level. It does
  -- not fail and ends at the table that a descent without locks ends at, with the lock of that
  -- table alone held; nothing else in the state is changed.
  pub rtt_walk_lock_unlock-descend :
      (g_root start_level ipa_bits map_addr level : ℕ) (s : Rmm)
      → IsQuiet s
      → IsLinked plat level_of s
      → start_level ≤ level
      → level ≤ 3
      → map_addr < shift_left 1 ipa_bits
      → (s.granules (root_of g_root (s2_sl_addr_to_idx map_addr start_level ipa_bits))).state ≡ rtt
      → level_of (root_of g_root (s2_sl_addr_to_idx map_addr start_level ipa_bits)) ≡ start_level
      → let last =
          descend plat s
            (level - start_level)
            start_level
            (root_of g_root (s2_sl_addr_to_idx map_addr start_level ipa_bits))
            map_addr in
        rtt_walk_lock_unlock plat g_root start_level ipa_bits map_addr level (locked g_root s)
        ≡ done
            (record { g_llt = last.1; index = s2_addr_to_idx map_addr last.0; last_level = last.0 })
            (locked last.1 s)
  unfolding rtt_walk_lock_unlock
  rtt_walk_lock_unlock-descend g_root start_level ipa_bits map_addr level s quiet link le top lt e
        lv =
      let g = root_of g_root (s2_sl_addr_to_idx map_addr start_level ipa_bits) in
      let sl_fits : ltb start_level 4 ≡ true = in_bound (omega (arith, le, top)) in
      rw
        (
          at_least_zero start_level,
          leb-true le,
          in_bound lt,
          concat_root-locked g_root (s2_sl_addr_to_idx map_addr start_level ipa_bits) s quiet e,
          sl_fits,
          walk_from-descend (level - start_level) start_level g map_addr s quiet link e lv
              (omega (arith, le, top)),
        )
        refl
