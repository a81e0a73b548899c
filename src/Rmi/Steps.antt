-- ===== src/Rmi/Steps.antt =====
-- Runs of the system: commands of the host on granules and realms (runtime/rmi/granule.c,
-- runtime/rmi/realm.c, runtime/rmi/rec.c), between writes of the host to non-secure pages and of a
-- realm to its data pages.
pub mod Clean
use acai_rmm.Common.{ℕ, ◌≡◌, ◌⊎◌, some}
use acai_rmm.State.{Platform, ns, data_granule, Rmm, done, write_page}
use acai_rmm.Granule.Find.{find_granule}
use acai_rmm.Rmi.Granule.{smc_granule_delegate, smc_granule_undelegate}
use acai_rmm.Rmi.Realm.Create.{smc_realm_activate}
use acai_rmm.Rmi.Rec.Destroy.{AuxCount, smc_rec_aux_count, smc_rec_destroy}
use acai_rmm.Rmi.Rec.Destroyed.{IsContext}

-- Each command returned; what it returned is free. A context that is destroyed is well formed.
pub data Step (plat : Platform) : Rmm → Rmm → Type 0 where
  delegate : {s t : Rmm} (addr r : ℕ) → smc_granule_delegate plat addr s ≡ done r t → Step plat s t
  undelegate :
      {s t : Rmm} (addr r : ℕ) → smc_granule_undelegate plat addr s ≡ done r t → Step plat s t
  activate : {s t : Rmm} (addr r : ℕ) → smc_realm_activate plat addr s ≡ done r t → Step plat s t
  aux_count :
      {s t : Rmm} (addr : ℕ) (r : AuxCount)
      → smc_rec_aux_count plat addr s ≡ done r t
      → Step plat s t
  rec_destroy :
      {s t : Rmm} (addr g r : ℕ)
      → find_granule plat addr ≡ some g
      → IsContext s g
      → smc_rec_destroy plat addr s ≡ done r t
      → Step plat s t
  write :
      {s t : Rmm} (g : ℕ) (content : ℕ → ℕ)
      → ((s.granules g).state ≡ ns) ⊎ ((s.granules g).state ≡ data_granule)
      → write_page g content s ≡ done tt t
      → Step plat s t

pub data Reach (plat : Platform) (s : Rmm) : Rmm → Type 0 where
  here : Reach plat s s
  next : {t u : Rmm} → Reach plat s t → Step plat t u → Reach plat s u
