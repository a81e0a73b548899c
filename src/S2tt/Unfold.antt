-- ===== src/S2tt/Unfold.antt =====
-- lib/realm/src/s2tt.c: a table that was filled for a block maps that block.
use mathlib.Core.Path.{subst}
use acai_rmm.Common.{
  ◌!=◌, ℕ, zero, suc, ◌+◌, ◌-◌, ◌*◌, ◌%◌, ◌^◌, ◌≤◌, ◌<◌, ◌≡◌, refl, Bool, true, false, ◌&&◌, arith,
  leb, ltb, if◌then◌else◌, Bool-cases, inl, inr, sym, ap, ◌∙◌, update, fun_ext,
}
use acai_rmm.State.{Rmm, done, Command, ◌>>◌}
use acai_rmm.S2tt.Level.{
  s2tte_map_size, s2tte_map_size-level, addr_is_level_aligned, addr_is_level_aligned_iff,
}
use acai_rmm.S2tt.Entry.{s2tte_is_assigned, s2tte_pa, s2tte_create_assigned_empty}
use acai_rmm.S2tt.Codec.{IsOutput, assigned_empty-entry, output_bits}
use acai_rmm.S2tt.Table.{
  fill_block, maps_from, s2tt_init_assigned_empty, table_maps_assigned_block, table_maps_block,
}

-- The address `j` maps after `pa`.
abbrev pub nth_addr : ℕ → ℕ → ℕ → ℕ
nth_addr pa m j = (pa + j * m) % 2 ^ 64

-- The state after `k` entries from entry `i` on were written, each made from its address.
abbrev pub filled : Rmm → ℕ → ℕ → ℕ → (ℕ → ℕ) → ℕ → ℕ → Rmm
filled s t i k entry pa m = record s {
  page =
      update s.page t
        (λ j. if leb i j && ltb j (i + k) then entry (nth_addr pa m (j - i)) else s.page t j);
}

mul_next : (j m : ℕ) → suc j * m ≡ m + j * m
mul_next j m = omega arith

nth_addr-next : (pa m j : ℕ) → nth_addr ((pa + m) % 2 ^ 64) m j ≡ nth_addr pa m (suc j)
nth_addr-next pa m j = omega (arith, mul_next j m)

before : (i j : ℕ) → i < j → suc (j - suc i) ≡ j - i
before i j h = omega arith

self : (i : ℕ) → i - i ≡ 0
self i = omega arith

first : (pa m : ℕ) → pa < 2 ^ 64 → nth_addr pa m 0 ≡ pa
first pa m h = omega arith

nth_addr-after :
    (pa m i j : ℕ) → i < j → nth_addr ((pa + m) % 2 ^ 64) m (j - suc i) ≡ nth_addr pa m (j - i)
nth_addr-after pa m i j h = nth_addr-next pa m (j - suc i) ∙ ap (nth_addr pa m) (before i j h)

nth_addr-first : (pa m i : ℕ) → pa < 2 ^ 64 → nth_addr pa m (i - i) ≡ pa
nth_addr-first pa m i h = ap (nth_addr pa m) (self i) ∙ first pa m h

filled-next :
    (s : Rmm) (t i k : ℕ) (entry : ℕ → ℕ) (pa m : ℕ)
    → pa < 2 ^ 64
    → filled
        (record s { page = update s.page t (update (s.page t) i (entry pa)) })
        t
        (suc i)
        k
        entry
        ((pa + m) % 2 ^ 64)
        m
      ≡ filled s t i (suc k) entry pa m
filled-next s t i k entry pa m lt =
    ap (λ (p : ℕ → ℕ → ℕ). record s { page = p })
      (fun_ext λ x. fun_ext λ j. elim (Bool-cases (ltb i j)) [
        | inl b ↦ ground (arith, b, ap entry (nth_addr-after pa m i j (ground (arith, b))))
        | inr b ↦ ground (arith, b, ap entry (nth_addr-first pa m i lt))
      ])

-- The loop writes the entry of every address.
pub fill_block-filled :
    (create : ℕ → ℕ → Command ℕ) (entry : ℕ → ℕ) (k i t pa level : ℕ) (s : Rmm)
    → ((j : ℕ) (s : Rmm)
        → j < k
        → create (nth_addr pa (s2tte_map_size level) j) level s
          ≡ done (entry (nth_addr pa (s2tte_map_size level) j)) s)
    → pa < 2 ^ 64
    → fill_block create k i t pa level s ≡ done tt (filled s t i k entry pa (s2tte_map_size level))
unfolding fill_block
fill_block-filled create entry zero i t pa level s h lt =
    ap (λ (p : ℕ → ℕ → ℕ). done tt (record s { page = p })) (fun_ext λ x. fun_ext λ j. ground arith)
fill_block-filled create entry (suc k) i t pa level s h lt =
    let m = s2tte_map_size level in
    let f = first pa m lt in
    let at_pa = subst (λ (a : ℕ). create a level s ≡ done (entry a) s) f (h 0 s (omega arith)) in
    rw (at_pa, sym (filled-next s t i k entry pa m lt))
      (fill_block-filled create entry k (suc i) t ((pa + m) % 2 ^ 64) level _
        (λ j s' l. rw (nth_addr-next pa m j) (h (suc j) s' (omega arith))) (omega arith))

!=_refl : (a : ℕ) → (a != a) ≡ false
!=_refl a = ground arith

-- The loop that checks a filled table goes through.
pub maps_from-filled :
    (is_x : ℕ → ℕ → Bool) (level base_pa k i t : ℕ) (s : Rmm)
    → ((j : ℕ)
        → i ≤ j
        → j < i + k
        → (is_x (s.page t j) level ≡ true)
          × (s2tte_pa (s.page t j) level s ≡ done (nth_addr base_pa (s2tte_map_size level) j) s))
    → maps_from is_x level base_pa k i t s ≡ done true s
unfolding maps_from
maps_from-filled is_x level base_pa zero i t s h = refl
maps_from-filled is_x level base_pa (suc k) i t s h =
    let hi = h i (omega arith) (omega arith) in
    rw (hi.0, hi.1, !=_refl (nth_addr base_pa (s2tte_map_size level) i))
      (maps_from-filled is_x level base_pa k (suc i) t s (λ j p q. h j (omega arith) (omega arith)))

-- The entry that `s2tte_create_assigned_empty` makes from an output address.
abbrev pub assigned_entry : ℕ → ℕ
assigned_entry pa = pa + 4

page-IsOutput : (pa j : ℕ) → IsOutput pa 2 → j < 512 → IsOutput (nth_addr pa 4096 j) 3
page-IsOutput pa j o h = record {
  from_block = omega arith;
  to_page = omega arith;
  aligned =
      (addr_is_level_aligned_iff (nth_addr pa 4096 j) 3 (omega arith)).1
        (ground (arith, output_bits pa 2 o, s2tte_map_size-level 3 (omega arith), h));
}

block_base : (pa : ℕ) → IsOutput pa 2 → nth_addr pa 4096 0 ≡ pa
block_base pa o = omega (arith, (output_bits pa 2 o).1)

filled_word :
    (t pa j : ℕ) (s : Rmm)
    → j < 512
    → (filled s t 0 512 assigned_entry pa 4096).page t j ≡ assigned_entry (nth_addr pa 4096 j)
filled_word t pa j s h = ground (arith, h)

-- Every entry of a table maps its page.
abbrev MapsPages : (ℕ → ℕ → Bool) → ℕ → ℕ → Rmm → Type 0
MapsPages is_x t base s =
    (j : ℕ)
    → j < 512
    → (is_x (s.page t j) 3 ≡ true) × (s2tte_pa (s.page t j) 3 s ≡ done (nth_addr base 4096 j) s)

table_maps_block-true :
    (is_x : ℕ → ℕ → Bool) (t base : ℕ) (s : Rmm)
    → MapsPages is_x t base s
    → addr_is_level_aligned base 2 ≡ true
    → nth_addr base 4096 0 ≡ base
    → table_maps_block is_x t 3 s ≡ done true s
unfolding table_maps_block s2tte_map_size
table_maps_block-true is_x t base s h aligned start =
    let w = h 0 (omega arith) in
    rw (w.0, w.1, start, aligned)
      (maps_from-filled is_x 3 base 511 1 t s (λ j p q. h j (omega arith)))

filled-MapsPages :
    (t pa : ℕ) (s : Rmm)
    → IsOutput pa 2
    → MapsPages s2tte_is_assigned t pa (filled s t 0 512 assigned_entry pa 4096)
filled-MapsPages t pa s o j h =
    let u = filled s t 0 512 assigned_entry pa 4096 in
    let e = assigned_empty-entry (nth_addr pa 4096 j) 3 u (page-IsOutput pa j o h) in
    let w = filled_word t pa j s h in
    (ap (λ (x : ℕ). s2tte_is_assigned x 3) w ∙ e.1, ap (λ (x : ℕ). s2tte_pa x 3 u) w ∙ e.2)

-- `s2tt_init_assigned_empty` with the pages of a level 2 block, then the check that folding makes:
-- both succeed, and the check says that the table maps the block.
pub table_maps_assigned_block-init :
    (t pa : ℕ) (s : Rmm)
    → IsOutput pa 2
    → (s2tt_init_assigned_empty t pa 3 >> table_maps_assigned_block t 3) s
      ≡ done true (filled s t 0 512 assigned_entry pa 4096)
unfolding s2tt_init_assigned_empty table_maps_assigned_block table_maps_block s2tte_map_size
table_maps_assigned_block-init t pa s o =
    let u = filled s t 0 512 assigned_entry pa 4096 in
    let init =
      fill_block-filled s2tte_create_assigned_empty assigned_entry 512 0 t pa 3 s
        (λ j s' h. (assigned_empty-entry (nth_addr pa 4096 j) 3 s' (page-IsOutput pa j o h)).0)
        (omega (arith, (output_bits pa 2 o).1)) in
    rw init (
      table_maps_block-true s2tte_is_assigned t pa u (filled-MapsPages t pa s o) o.aligned
        (block_base pa o))
