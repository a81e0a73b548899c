-- ===== src/Rmi/Realm/Laws.antt =====
-- runtime/rmi/realm.c: what the commands on realms guarantee.
use acai_rmm.Common.{
  ℕ, ◌≡◌, refl, Option, none, some, ◌==◌, if◌then◌else◌, Bool-cases, inl, inr, update,
}
use acai_rmm.State.{
  Platform, rd, same_state, Rmm, Outcome, done, realm_state_new, realm_state_active,
}
use acai_rmm.Status.{rmi_success, rmi_error_input, rmi_error_realm}
use acai_rmm.Granule.Find.{find_granule}
use acai_rmm.Granule.Quiet.{IsQuiet, unlock-locked}
use acai_rmm.Granule.Locking.{find_lock_granule_lem}
use acai_rmm.Rmi.Realm.Create.{smc_realm_activate}

-- The state after the realm of a descriptor was activated.
abbrev pub activated_state : ℕ → Rmm → Rmm
activated_state g s = record s {
  rds = update s.rds g (record (s.rds g) { state = realm_state_active });
}

abbrev pub activate_result : Option ℕ → Rmm → Outcome ℕ
activate_result none s = done rmi_error_input s
activate_result (some g) s =
    if same_state (s.granules g).state rd
    then (if (s.rds g).state == realm_state_new
        then done rmi_success (activated_state g s)
        else done rmi_error_realm s)
    else done rmi_error_input s

module _ (plat : Platform) where
  activate_found-result :
      (addr : ℕ) (o : Option ℕ) (s : Rmm)
      → find_granule plat addr ≡ o
      → IsQuiet s
      → smc_realm_activate plat addr s ≡ activate_result o s
  unfolding smc_realm_activate
  activate_found-result addr none s f quiet =
      rw (find_lock_granule_lem plat addr rd s (λ g h. cc), f)
  activate_found-result addr (some g) s f quiet =
      rw (find_lock_granule_lem plat addr rd s (λ g h. (quiet.free g, quiet.counted g)), f)
        (elim (Bool-cases (same_state (s.granules g).state rd)) [
          | inl e ↦ rw e (elim (Bool-cases ((s.rds g).state == realm_state_new)) [
            | inl n ↦
                rw (n, unlock-locked g (activated_state g s) (quiet.free g) (quiet.counted g)) refl
            | inr n ↦ rw (n, unlock-locked g s (quiet.free g) (quiet.counted g)) refl
          ])
          | inr e ↦ rw e
        ])

  -- `smc_realm_activate`, in a state with no lock held: a new realm whose descriptor the address
  -- names becomes active and nothing else changes, no lock either; a realm that is not new gives
  -- RMI_ERROR_REALM and any other address RMI_ERROR_INPUT, both without a change.
  pub smc_realm_activate_lem :
      (addr : ℕ) (s : Rmm)
      → IsQuiet s
      → smc_realm_activate plat addr s ≡ activate_result (find_granule plat addr) s
  smc_realm_activate_lem addr s quiet =
      activate_found-result addr (find_granule plat addr) s refl quiet
