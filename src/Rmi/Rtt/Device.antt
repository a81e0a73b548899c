-- ===== src/Rmi/Rtt/Device.antt =====
-- runtime/rmi/rtt.c: before a device is attached, the memory of its six BARs must be mapped where the
-- descriptor page in the data granule says.
pub mod Lock
use acai_rmm.Common.{
  ℕ, zero, suc, ◌+◌, ◌*◌, ◌/◌, ◌%◌, ◌^◌, Bool, true, not, ◌&&◌, Option, none, some, List, [], ◌∷◌,
  ◌++◌, ltb, ◌==◌, ◌!=◌, if◌then◌else◌, bit_and,
}
use acai_rmm.State.{
  Platform, Rd, granule_size, rd, rtt, data_granule, Command, fault, overrun, pure, ◌>>=◌, ◌>>◌,
  assert, read_rd, read_word,
}
use acai_rmm.Status.{rmi_error_input, rmi_error_rtt, pack_return_code}
use acai_rmm.Granule.Ops.{granule_lock, granule_unlock}
use acai_rmm.Granule.Find.{find_lock_granule}
use acai_rmm.S2tt.Level.{rtt_page_level}
use acai_rmm.S2tt.Entry.{s2tte_is_valid, s2tte_is_assigned, s2tte_pa}
use acai_rmm.S2tt.Walk.{rtt_walk_lock_unlock}
use acai_rmm.Rmi.Rtt.Validate.{validate_map_addr}

unfoldable pub measure_flag : ℕ → ℕ
measure_flag flags = bit_and flags 1

unfoldable pub dev_attach_flag : ℕ → ℕ
dev_attach_flag flags = bit_and flags 2

-- `data[k]`; the processor is little-endian.
unfoldable pub byte_at : (ℕ → ℕ) → ℕ → ℕ
byte_at content k = content (k / 8) / 2 ^ (8 * (k % 8)) % 2 ^ 8

-- `x = (x << 8) + data[k]` for the bytes from `k` on, with `n` of them left.
unfoldable pub read_bytes : (ℕ → ℕ) → ℕ → ℕ → ℕ → ℕ
unfolding byte_at
read_bytes content zero k x = x
read_bytes content (suc n) k x =
    read_bytes content n (suc k) ((x * 2 ^ 8 + byte_at content k) % 2 ^ 64)

-- The arrays that the two functions fill, by the number of the BAR.
unfoldable pub read_bar_sizes : (ℕ → ℕ) → ℕ → ℕ
unfolding read_bytes
read_bar_sizes content i = read_bytes content 4 (20 + i * 4) 0

unfoldable pub read_ipa_pa : (ℕ → ℕ) → (ℕ → ℕ) × (ℕ → ℕ)
unfolding read_bytes
read_ipa_pa content =
    (λ i. read_bytes content 8 (48 + i * 16) 0, λ i. read_bytes content 8 (48 + 8 + i * 16) 0)

-- An address of the realm and the physical address that is expected there.
pub record Mapping : Type 0 where
  pub ipa : ℕ
  pub pa : ℕ

-- The length of `check_ipa` and `check_pa`.
abbrev pub max_checks : ℕ
max_checks = 1000

unfoldable pub all_valid_addrs : List Mapping → Rd → Bool
all_valid_addrs [] d = true
all_valid_addrs (m ∷ ms) d = validate_map_addr m.ipa rtt_page_level d && all_valid_addrs ms d

module _ (plat : Platform) where
  -- The inner loop of `check_dev_addr_space` at offset `j`, with `slots` entries of the arrays left.
  unfoldable pub collect_pages :
      ℕ → ℕ → ℕ → ℕ → ℕ → List Mapping → Command (Option (ℕ × List Mapping))
  collect_pages zero j ipa pa bar_size checks =
      if ltb j bar_size
      then (do
        g ← find_lock_granule plat ((pa + j) % 2 ^ 64) data_granule
        elim g [ none ↦ pure none | some g_data ↦ (λ s. fault overrun) ])
      else pure (some (0, checks))
  collect_pages (suc slots) j ipa pa bar_size checks =
      let check : Mapping = record { ipa = (ipa + j) % 2 ^ 64; pa = (pa + j) % 2 ^ 64 } in
      let rest = collect_pages slots (j + granule_size) ipa pa bar_size (checks ++ check ∷ []) in
      if ltb j bar_size
      then (do
        g ← find_lock_granule plat ((pa + j) % 2 ^ 64) data_granule
        elim g [ none ↦ pure none | some g_data ↦ granule_unlock g_data >> rest ])
      else pure (some (suc slots, checks))

  -- The outer loop from BAR `i` on, with `k` BARs left.
  unfoldable pub collect_bars :
      ℕ → ℕ → ℕ → (ℕ → ℕ) → (ℕ → ℕ) → (ℕ → ℕ) → List Mapping → Command (Option (ℕ × List Mapping))
  unfolding collect_pages
  collect_bars zero i slots bar_sizes bar_ipa bar_pa checks = pure (some (slots, checks))
  collect_bars (suc k) i slots bar_sizes bar_ipa bar_pa checks =
      let next =
        λ (p : ℕ × List Mapping). collect_bars k (suc i) p.0 bar_sizes bar_ipa bar_pa p.1 in
      (do
        found ← collect_pages slots 0 (bar_ipa i) (bar_pa i) (bar_sizes i) checks
        elim found [ none ↦ pure none | some p ↦ next p ])

  -- The loop of `do_full_table_walk_check` over the mappings that are left.
  unfoldable pub walk_checks : List Mapping → ℕ → Rd → Command ℕ
  walk_checks [] g_rd d = pure 0
  walk_checks (m ∷ ms) g_rd d =
      let rest = walk_checks ms g_rd d in
      (do
        granule_lock d.s2_ctx.g_rtt rtt
        granule_unlock g_rd
        wi ←
            rtt_walk_lock_unlock plat d.s2_ctx.g_rtt d.s2_ctx.s2_starting_level d.s2_ctx.ipa_bits
              m.ipa rtt_page_level
        if wi.last_level != rtt_page_level
            then (do
              ret ← pack_return_code rmi_error_rtt wi.last_level
              granule_unlock wi.g_llt
              pure ret)
            else (do
              s2tte ← read_word wi.g_llt wi.index
              if not (s2tte_is_valid s2tte rtt_page_level)
                    && not (s2tte_is_assigned s2tte rtt_page_level)
                  then pack_return_code rmi_error_rtt rtt_page_level
                  else (do
                    pa ← s2tte_pa s2tte rtt_page_level
                    granule_unlock wi.g_llt
                    if not (pa == m.pa) then pure rmi_error_input else rest)))

  unfoldable pub do_full_table_walk_check : ℕ → List Mapping → Command ℕ
  unfolding walk_checks all_valid_addrs
  do_full_table_walk_check rd_addr checks = do
    found ← find_lock_granule plat rd_addr rd
    elim found [
      | none ↦ pure rmi_error_input
      | some g_rd ↦ (do
        d ← read_rd g_rd
        if not (all_valid_addrs checks d)
            then granule_unlock g_rd >> pure rmi_error_input
            else walk_checks checks g_rd d)
    ]

  unfoldable pub check_dev_addr_space : ℕ → (ℕ → ℕ) → (ℕ → ℕ) → (ℕ → ℕ) → Command ℕ
  unfolding collect_bars do_full_table_walk_check
  check_dev_addr_space rd_addr bar_sizes bar_ipa bar_pa = do
    found ← collect_bars 6 0 max_checks bar_sizes bar_ipa bar_pa []
    elim found [
      | none ↦ pure rmi_error_input
      | some p ↦ (do assert (ltb 0 p.0); do_full_table_walk_check rd_addr p.1)
    ]
