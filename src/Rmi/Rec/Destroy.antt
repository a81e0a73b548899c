-- ===== src/Rmi/Rec/Destroy.antt =====
-- runtime/rmi/rec.c: an execution context is destroyed; the number of its auxiliary granules; and the
-- completion of a PSCI call by the host.
use acai_rmm.Common.{ℕ, true, not, Option, none, some, ◌!=◌, if◌then◌else◌}
use acai_rmm.State.{
  Platform, delegated, rd, rec, Command, pure, ◌>>=◌, ◌>>◌, assert, read_granule, read_rd, read_rec,
}
use acai_rmm.Status.{rmi_success, rmi_error_input}
use acai_rmm.Granule.Ops.{
  granule_unlock, granule_unlock_transition, granule_memzero, atomic_granule_put,
}
use acai_rmm.Granule.Find.{
  Found, found, status, granule_aligned, find_lock_granule, find_lock_unused_granule,
}
use acai_rmm.Granule.Set.{find_lock_two_granules}
use acai_rmm.Rsi.Psci.{psci_complete_request}
use acai_rmm.Rmi.Rec.Create.{free_rec_aux_granules}

unfoldable pub destroy_rec : Found → Command ℕ
destroy_rec (status e) = pure e
destroy_rec (found g_rec) = do
  r ← read_rec g_rec
  free_rec_aux_granules r.g_aux r.num_rec_aux true
  granule_memzero g_rec
  granule_unlock_transition g_rec delegated
  atomic_granule_put r.realm_info.g_rd
  pure rmi_success

-- The registers of `struct smc_result`; the second is set on success alone.
pub record AuxCount : Type 0 where
  pub x0 : ℕ
  pub x1 : Option ℕ

module _ (plat : Platform) where
  unfoldable pub smc_rec_destroy : ℕ → Command ℕ
  unfolding destroy_rec
  smc_rec_destroy rec_addr = do
    g_rec ← find_lock_unused_granule plat rec_addr rec
    destroy_rec g_rec

  unfoldable pub smc_rec_aux_count : ℕ → Command AuxCount
  smc_rec_aux_count rd_addr = do
    g_rd ← find_lock_granule plat rd_addr rd
    elim g_rd [
      | none ↦ pure (record { x0 = rmi_error_input; x1 = none })
      | some g ↦ (do
        d ← read_rd g
        granule_unlock g
        pure (record { x0 = rmi_success; x1 = some d.num_rec_aux }))
    ]

  -- With both contexts locked, up to `out_unlock`.
  unfoldable pub complete_locked : ℕ → ℕ → Command ℕ
  complete_locked g_calling_rec g_target_rec = do
    x ← read_granule g_calling_rec
    if x.refcount != 0
        then pure rmi_error_input
        else psci_complete_request g_calling_rec g_target_rec

  unfoldable pub smc_psci_complete : ℕ → ℕ → Command ℕ
  unfolding complete_locked
  smc_psci_complete calling_rec_addr target_rec_addr = do
    assert (calling_rec_addr != 0)
    assert (target_rec_addr != 0)
    if not (granule_aligned calling_rec_addr)
        then pure rmi_error_input
        else if not (granule_aligned target_rec_addr)
        then pure rmi_error_input
        else (do
          locked ← find_lock_two_granules plat calling_rec_addr rec target_rec_addr rec
          elim locked [
            | none ↦ pure rmi_error_input
            | some g ↦ (do
              ret ← complete_locked g.0 g.1
              granule_unlock g.0
              granule_unlock g.1
              pure ret)
          ])
