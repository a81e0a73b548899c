-- ===== src/Rsi/DevMem.antt =====
-- runtime/rsi/dev_mem.c: a realm asks that the pages of a device become its own, or are given back.
pub mod Unlock
use acai_rmm.Common.{
  ℕ, zero, suc, ◌+◌, ◌-◌, ◌%◌, ◌^◌, Bool, true, false, not, ◌||◌, Option, none, some, ◌!=◌,
  if◌then◌else◌, bit_and, update,
}
use acai_rmm.State.{
  Platform, granule_size, Rd, rd, data_granule, Command, pure, ◌>>=◌, ◌>>◌, assert, read_rd,
  read_rec,
}
use acai_rmm.Granule.Ops.{granule_lock, granule_unlock}
use acai_rmm.Granule.Find.{granule_aligned, find_granule}
use acai_rmm.S2tt.Entry.{rmi_empty}
use acai_rmm.Rmi.Granule.{smc_granule_delegate_dev}
use acai_rmm.Rsi.Interface.{
  S2WalkStatus, walk_success, walk_invalid_params, walk_fail, S2WalkResult,
  s2_walk_result_match_ripas, addr_in_rec_par, rsi_error_input,
}
use acai_rmm.Rsi.Ipa.{realm_ipa_to_pa}

-- `struct rsi_delegate_dev_mem_result`
pub record DevMemResult : Type 0 where
  pub abort : Bool
  pub rtt_level : ℕ
  pub smc_result : ℕ

-- The variables of the handler that its loops change.
pub record DevMem : Type 0 where
  pub res : DevMemResult
  pub ipa : ℕ
  pub size_del : ℕ
  pub grs : ℕ → ℕ
  pub pas : ℕ → ℕ
  pub ipas : ℕ → ℕ

-- `granule_unlock(grs[i])` from `i` on, with `k` rounds left.
unfoldable pub unlock_pages : ℕ → ℕ → (ℕ → ℕ) → Command (Unit {0})
unlock_pages zero i grs = pure tt
unlock_pages (suc k) i grs = do granule_unlock (grs i); unlock_pages k (suc i) grs

module _ (plat : Platform) where
  -- The branches after the walk of round `i`.
  unfoldable pub page_walked : ℕ → DevMem → S2WalkStatus × S2WalkResult → Command DevMem
  page_walked i v (walk_fail, w) = do
    granule_unlock w.llt
    pure (record v {
      res =
          if s2_walk_result_match_ripas w rmi_empty
          then record v.res { smc_result = rsi_error_input }
          else record v.res { abort = true; rtt_level = w.rtt_level };
    })
  page_walked i v (walk_invalid_params, w) = do
    granule_unlock w.llt
    pure (record v { res = record v.res { smc_result = rsi_error_input } })
  page_walked i v (walk_success, w) = elim (find_granule plat w.pa) [
    | none ↦ assert false >> pure v
    | some g ↦ (do
      granule_lock g data_granule
      granule_unlock w.llt
      pure (record v {
        ipa = (v.ipa + granule_size) % 2 ^ 64;
        size_del = v.size_del + 1;
        grs = update v.grs i g;
        pas = update v.pas i w.pa;
        ipas = update v.ipas i v.ipa;
      }))
  ]

  -- The first loop from round `i` on; each round has a variable that is not initialised.
  unfoldable pub walk_pages : ℕ → ℕ → (ℕ → S2WalkResult) → Rd → DevMem → Command DevMem
  unfolding page_walked
  walk_pages zero i walk_res d v = pure v
  walk_pages (suc k) i walk_res d v = do
    walked ← realm_ipa_to_pa plat d v.ipa (walk_res i)
    next ← page_walked i v walked
    walk_pages k (suc i) walk_res d next

  -- The second loop; it ends after its first round when pages are delegated.
  unfoldable pub delegate_pages : ℕ → ℕ → ℕ → DevMem → Command DevMem
  delegate_pages zero i delegate_flag v = pure v
  delegate_pages (suc k) i delegate_flag v =
      let rest = λ (w : DevMem). delegate_pages k (suc i) delegate_flag w in
      (do
        ret ← smc_granule_delegate_dev plat (v.pas i) delegate_flag (v.ipas i)
        let next = record v { res = record v.res { smc_result = ret } }
        elim (delegate_flag != 0) [ true ↦ pure next | false ↦ rest next ])

  -- The three arrays and the variables of the loop are not initialised by the source: `v` holds the
  -- arrays, `walk_res` the variables.
  unfoldable pub handle_rsi_dev_mem : (ℕ → S2WalkResult) → DevMem → ℕ → Command DevMemResult
  unfolding walk_pages delegate_pages unlock_pages
  handle_rsi_dev_mem walk_res v g_rec = do
    r ← read_rec g_rec
    let ipa = bit_and (r.regs 1) (2 ^ 64 - granule_size)
    let bad = not (granule_aligned ipa) || not (addr_in_rec_par r ipa)
    granule_lock r.realm_info.g_rd rd
    d ← read_rd r.realm_info.g_rd
    walked ← walk_pages (r.regs 3) 0 walk_res d (record v {
      res = record {
        abort = false;
        rtt_level = 0;
        smc_result = if bad then rsi_error_input else 0;
      };
      ipa = ipa;
      size_del = 0;
    })
    delegated ← delegate_pages walked.size_del 0 (r.regs 2) walked
    unlock_pages delegated.size_del 0 delegated.grs
    granule_unlock r.realm_info.g_rd
    pure delegated.res
