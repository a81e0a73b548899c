-- ===== src/Rmi/Rec/Laws.antt =====
-- runtime/rmi/rec.c: what the commands on execution contexts guarantee.
use acai_rmm.Common.{ℕ, ◌≡◌, refl, Option, none, some, if◌then◌else◌, Bool-cases, inl, inr}
use acai_rmm.State.{Platform, rd, same_state, Rmm, Outcome, done}
use acai_rmm.Status.{rmi_success, rmi_error_input}
use acai_rmm.Granule.Find.{find_granule}
use acai_rmm.Granule.Quiet.{IsQuiet, unlock-locked}
use acai_rmm.Granule.Locking.{find_lock_granule_lem}
use acai_rmm.Rmi.Rec.Destroy.{AuxCount, smc_rec_aux_count}

abbrev pub aux_count_result : Option ℕ → Rmm → Outcome AuxCount
aux_count_result none s = done (record { x0 = rmi_error_input; x1 = none }) s
aux_count_result (some g) s =
    if same_state (s.granules g).state rd
    then done (record { x0 = rmi_success; x1 = some (s.rds g).num_rec_aux }) s
    else done (record { x0 = rmi_error_input; x1 = none }) s

module _ (plat : Platform) where
  aux_count_found-result :
      (addr : ℕ) (o : Option ℕ) (s : Rmm)
      → find_granule plat addr ≡ o
      → IsQuiet s
      → smc_rec_aux_count plat addr s ≡ aux_count_result o s
  unfolding smc_rec_aux_count
  aux_count_found-result addr none s f quiet =
      rw (find_lock_granule_lem plat addr rd s (λ g h. cc), f)
  aux_count_found-result addr (some g) s f quiet =
      rw (find_lock_granule_lem plat addr rd s (λ g h. (quiet.free g, quiet.counted g)), f)
        (elim (Bool-cases (same_state (s.granules g).state rd)) [
          | inl e ↦ rw (e, unlock-locked g s (quiet.free g) (quiet.counted g)) refl
          | inr e ↦ rw e
        ])

  -- `smc_rec_aux_count`, in a state with no lock held, changes nothing: it returns the count of the
  -- realm whose descriptor the address names, and RMI_ERROR_INPUT for any other address.
  pub smc_rec_aux_count_lem :
      (addr : ℕ) (s : Rmm)
      → IsQuiet s
      → smc_rec_aux_count plat addr s ≡ aux_count_result (find_granule plat addr) s
  smc_rec_aux_count_lem addr s quiet =
      aux_count_found-result addr (find_granule plat addr) s refl quiet
