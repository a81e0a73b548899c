-- ===== src/Rmi/Granule.antt =====
-- runtime/rmi/granule.c: granules enter and leave the realm world.
pub mod Delegate
use acai_rmm.Common.{ℕ, Option, none, some}
use acai_rmm.State.{Platform, ns, delegated, Command, pure, ◌>>=◌, ◌>>◌}
use acai_rmm.Asc.{asc_mark_secure, asc_mark_nonsecure, asc_mark_secure_dev, asc_attach_dev}
use acai_rmm.Status.{rmi_success, rmi_error_input}
use acai_rmm.Granule.Ops.{granule_set_state, granule_memzero, granule_unlock}
use acai_rmm.Granule.Find.{find_lock_granule}

module _ (plat : Platform) where
  -- What follows the search, for the granule that it found.
  unfoldable pub delegate_found : ℕ → Option ℕ → Command ℕ
  delegate_found addr none = pure rmi_error_input
  delegate_found addr (some g) = do
    granule_set_state g delegated
    asc_mark_secure plat addr
    granule_memzero g
    granule_unlock g
    pure rmi_success

  unfoldable pub smc_granule_delegate : ℕ → Command ℕ
  unfolding delegate_found
  smc_granule_delegate addr = do g ← find_lock_granule plat addr ns; delegate_found addr g

  unfoldable pub smc_granule_delegate_dev : ℕ → ℕ → ℕ → Command ℕ
  smc_granule_delegate_dev addr delegate_flag iova = do
    asc_mark_secure_dev plat addr delegate_flag iova
    pure rmi_success

  unfoldable pub smc_attach_dev : ℕ → Command ℕ
  smc_attach_dev addr = do asc_attach_dev plat addr; pure rmi_success

  -- The driver declares `asc_add_translation_table` and the sources do not define it.
  unfoldable pub smc_add_page_to_smmu_tables :
      (ℕ → ℕ → ℕ → Command (Unit {0})) → ℕ → ℕ → ℕ → Command ℕ
  smc_add_page_to_smmu_tables asc_add_translation_table phys_addr iova sid = do
    asc_add_translation_table phys_addr iova sid
    pure rmi_success

  unfoldable pub undelegate_found : ℕ → Option ℕ → Command ℕ
  undelegate_found addr none = pure rmi_error_input
  undelegate_found addr (some g) = do
    asc_mark_nonsecure plat addr
    granule_set_state g ns
    granule_unlock g
    pure rmi_success

  unfoldable pub smc_granule_undelegate : ℕ → Command ℕ
  unfolding undelegate_found
  smc_granule_undelegate addr = do
    g ← find_lock_granule plat addr delegated
    undelegate_found addr g
