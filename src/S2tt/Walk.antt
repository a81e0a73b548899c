-- ===== src/S2tt/Walk.antt =====
-- lib/realm/src/s2tt.c: TLB maintenance and the walk of a table tree, hand over hand.
use acai_rmm.Common.{
  ℕ, zero, suc, ◌+◌, ◌-◌, ◌*◌, ◌/◌, ◌%◌, ◌^◌, not, Option, none, some, leb, ltb, if◌then◌else◌,
}
use acai_rmm.State.{
  Platform, granule_size, S2Context, rtt, tlbi_ipa, tlbi_all, Command, pure, ◌>>=◌, ◌>>◌, assert,
  read_word, emit, fault, overrun,
}
use acai_rmm.Granule.Ops.{granule_lock, granule_unlock}
use acai_rmm.Granule.Find.{addr_to_granule}
use acai_rmm.S2tt.Level.{
  s2ttes_per_s2tt, s2tte_stride, min_starting_level, s2_addr_to_idx, s2_sl_addr_to_idx, shift_left,
}
use acai_rmm.S2tt.Entry.{entry_is_table, table_entry_to_phys}

-- The `while` of `stage2_tlbi_ipa` over `pages` pages; an event is a `tlbiipas2e1is` with the VMID.
unfoldable pub tlbi_pages : ℕ → ℕ → ℕ → Command (Unit {0})
tlbi_pages vmid ipa zero = pure tt
tlbi_pages vmid ipa (suc pages) = do
  emit (tlbi_ipa vmid (ipa / 2 ^ 12))
  tlbi_pages vmid ((ipa + granule_size) % 2 ^ 64) pages

unfoldable pub stage2_tlbi_ipa : S2Context → ℕ → ℕ → Command (Unit {0})
stage2_tlbi_ipa s2_ctx ipa size = do
  tlbi_pages s2_ctx.vmid ipa (size / granule_size)
  emit (tlbi_all s2_ctx.vmid)

unfoldable pub invalidate_page : S2Context → ℕ → Command (Unit {0})
invalidate_page s2_ctx addr = stage2_tlbi_ipa s2_ctx addr granule_size

unfoldable pub invalidate_block : S2Context → ℕ → Command (Unit {0})
invalidate_block s2_ctx addr = stage2_tlbi_ipa s2_ctx addr granule_size

unfoldable pub invalidate_pages_in_block : S2Context → ℕ → Command (Unit {0})
invalidate_pages_in_block s2_ctx addr = stage2_tlbi_ipa s2_ctx addr (granule_size * s2ttes_per_s2tt)

abbrev pub nr_rtt_levels : ℕ
nr_rtt_levels = 4

-- `struct rtt_walk`
pub record RttWalk : Type 0 where
  pub g_llt : ℕ
  pub index : ℕ
  pub last_level : ℕ

-- `g_tbls[level] = ...`, of an array of `NR_RTT_LEVELS` entries.
unfoldable pub set_g_tbls : ℕ → Command (Unit {0})
set_g_tbls level = if ltb level nr_rtt_levels then pure tt else (λ s. fault overrun)

module _ (plat : Platform) where
  unfoldable pub find_next_level_idx : ℕ → ℕ → Command (Option ℕ)
  find_next_level_idx g_tbl idx = do
    entry ← read_word g_tbl idx
    if not (entry_is_table entry)
        then pure none
        else (do g ← addr_to_granule plat (table_entry_to_phys entry); pure (some g))

  unfoldable pub lock_if : Option ℕ → Command (Option ℕ)
  lock_if none = pure none
  lock_if (some g) = do granule_lock g rtt; pure (some g)

  unfoldable pub find_lock_next_level : ℕ → ℕ → ℕ → Command (Option ℕ)
  unfolding find_next_level_idx lock_if
  find_lock_next_level g_tbl map_addr level = do
    g ← find_next_level_idx g_tbl (s2_addr_to_idx map_addr level)
    lock_if g

  -- The `for` from level `i` on with `k` levels to go, at the locked table `g_tbl`; it returns the
  -- last level and its table, still locked.
  unfoldable pub walk_from : ℕ → ℕ → ℕ → ℕ → Command (ℕ × ℕ)
  unfolding set_g_tbls
  walk_from zero i g_tbl map_addr = pure (i, g_tbl)
  walk_from (suc k) i g_tbl map_addr =
      let next = λ (g : ℕ). walk_from k (suc i) g map_addr in
      (do
        g ← find_lock_next_level g_tbl map_addr i
        set_g_tbls (suc i)
        elim g [ none ↦ pure (i, g_tbl) | some g' ↦ granule_unlock g_tbl >> next g' ])

  -- The root table that holds the address, where the starting level has several tables.
  unfoldable pub concat_root : ℕ → ℕ → Command ℕ
  concat_root g_root sl_idx =
      if leb s2ttes_per_s2tt sl_idx
      then (do
        let g_concat_root = g_root + sl_idx / 2 ^ s2tte_stride
        granule_lock g_concat_root rtt
        granule_unlock g_root
        pure g_concat_root)
      else pure g_root

  unfoldable pub rtt_walk_lock_unlock : ℕ → ℕ → ℕ → ℕ → ℕ → Command RttWalk
  unfolding concat_root walk_from
  rtt_walk_lock_unlock g_root start_level ipa_bits map_addr level = do
    assert (leb min_starting_level start_level)
    assert (leb start_level level)
    assert (ltb map_addr (shift_left 1 ipa_bits))
    g ← concat_root g_root (s2_sl_addr_to_idx map_addr start_level ipa_bits)
    set_g_tbls start_level
    (last_level, g_llt) ← walk_from (level - start_level) start_level g map_addr
    pure (record {
      g_llt = g_llt;
      index = s2_addr_to_idx map_addr last_level;
      last_level = last_level;
    })
