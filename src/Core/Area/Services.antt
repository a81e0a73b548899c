-- ===== src/Core/Area/Services.antt =====
-- The services of a realm leave the area of the host alone (runtime/rsi).
use acai_rmm.Common.{ℕ, Option, none, some}
use acai_rmm.State.{Platform, Rec, pure}
use acai_rmm.Rsi.Interface.{
  RecExit, S2WalkResult, S2WalkStatus, walk_success, walk_invalid_params, walk_fail,
  region_is_contained, region_in_rec_par, to_realm, to_host, RsiWalkSmcResult, rsi_success,
}
use acai_rmm.Rsi.Ipa.{RipasFound, ripas_is, destroyed_at}
use acai_rmm.Rmi.Realm.Create.{addr_is_contained}
use acai_rmm.Rsi.Psci.{
  PsciResult, psci_rsi, psci_cpu_off, psci_cpu_on, psci_affinity_info, psci_system_off,
  psci_system_reset, request_target, rd_map_read_rec_count, system_off_reboot,
}
use acai_rmm.Rsi.Memory.{request_ripas, handle_rsi_ipa_state_set, handle_rsi_ipa_state_get}
use acai_rmm.Rsi.Config.{write_config, config_walked, handle_rsi_realm_config}
use acai_rmm.Rsi.HostCall.{
  CallSide, to_exit, from_entry, exchange, host_call_walked, do_host_call, handle_rsi_host_call,
}
use acai_rmm.Rsi.Measurements.{
  measurement_get_size, measurement_extend, extend_locked, extend_found,
  handle_rsi_read_measurement, handle_rsi_extend_measurement,
}
use acai_rmm.Granule.Find.{find_granule}
use acai_rmm.Core.Area.Keeps.{Area, Keeps, keeps_rules, Keeps-option}
use acai_rmm.Core.Area.Tables.{
  granule_lock-Keeps, granule_unlock-Keeps, ipa_to_pa-Keeps, get_ripas-Keeps,
  find_lock_granule-Keeps,
}

ruleset table_rules = (
  keeps_rules, granule_lock-Keeps, granule_unlock-Keeps, ipa_to_pa-Keeps, get_ripas-Keeps,
  find_lock_granule-Keeps,
)

request_target-Keeps : {a : Area} (g : ℕ) (r : Rec) (t o : ℕ) → Keeps a (request_target g r t o)
unfolding request_target rd_map_read_rec_count
request_target-Keeps g r t o = search keeps_rules depth 12

off-Keeps : {a : Area} (g : ℕ) → Keeps a (system_off_reboot g)
unfolding system_off_reboot
off-Keeps g = search table_rules depth 12

cpu_off-Keeps : {a : Area} (g : ℕ) → Keeps a (psci_cpu_off g)
unfolding psci_cpu_off
cpu_off-Keeps g = search keeps_rules depth 12

cpu_on-Keeps : {a : Area} (g p q : ℕ) → Keeps a (psci_cpu_on g p q)
unfolding psci_cpu_on
cpu_on-Keeps g p q = search (keeps_rules, request_target-Keeps) depth 12

affinity-Keeps : {a : Area} (g p q : ℕ) → Keeps a (psci_affinity_info g p q)
unfolding psci_affinity_info
affinity-Keeps g p q = search (keeps_rules, request_target-Keeps) depth 12

pub psci_rsi-Keeps :
    {a : Area} (given : PsciResult) (g f p q t : ℕ) → Keeps a (psci_rsi given g f p q t)
unfolding psci_rsi psci_system_off psci_system_reset
psci_rsi-Keeps given g f p q t =
    search (keeps_rules, off-Keeps, cpu_off-Keeps, cpu_on-Keeps, affinity-Keeps) depth 24

contained-Keeps : {a : Area} (p q t u : ℕ) → Keeps a (region_is_contained p q t u)
unfolding region_is_contained addr_is_contained
contained-Keeps p q t u = search keeps_rules depth 12

pub state_set-Keeps : {a : Area} (g : ℕ) (e : RecExit) → Keeps a (handle_rsi_ipa_state_set g e)
unfolding handle_rsi_ipa_state_set region_in_rec_par request_ripas
state_set-Keeps g e = search (keeps_rules, contained-Keeps) depth 12

get_size-Keeps : {a : Area} (n : ℕ) → Keeps a (measurement_get_size n)
unfolding measurement_get_size
get_size-Keeps n = search keeps_rules depth 12

pub read_measurement-Keeps : {a : Area} (g : ℕ) → Keeps a (handle_rsi_read_measurement g)
unfolding handle_rsi_read_measurement
read_measurement-Keeps g = search (table_rules, get_size-Keeps) depth 16

exchange-Keeps : {a : Area} (gr base : ℕ) (side : CallSide) → Keeps a (exchange gr base side)
unfolding exchange
exchange-Keeps gr base (to_exit e) = search keeps_rules depth 12
exchange-Keeps gr base (from_entry x) = search keeps_rules depth 12

module _ (plat : Platform) where
  write_config-Keeps : {a : Area} (r : Rec) (w : S2WalkResult) → Keeps a (write_config plat r w)
  unfolding write_config
  write_config-Keeps r w =
      Keeps-option (find_granule plat w.pa) _ _ (search table_rules)
        (λ g. search table_rules depth 12)

  config_walked-Keeps :
      {a : Area} (r : Rec) (x : S2WalkStatus × S2WalkResult) → Keeps a (config_walked plat r x)
  unfolding config_walked
  config_walked-Keeps r (walk_fail, w) = search table_rules
  config_walked-Keeps r (walk_invalid_params, w) = search table_rules
  config_walked-Keeps r (walk_success, w) = write_config-Keeps r w

  pub config-Keeps :
      {a : Area} (w : S2WalkResult) (g : ℕ) → Keeps a (handle_rsi_realm_config plat w g)
  unfolding handle_rsi_realm_config
  config-Keeps w g = search (table_rules, config_walked-Keeps) depth 16

  host_call_walked-Keeps :
      {a : Area} (ipa : ℕ) (side : CallSide) (x : S2WalkStatus × S2WalkResult)
      → Keeps a (host_call_walked plat ipa side x)
  unfolding host_call_walked
  host_call_walked-Keeps ipa side (walk_fail, w) = search table_rules
  host_call_walked-Keeps ipa side (walk_invalid_params, w) = search table_rules
  host_call_walked-Keeps ipa side (walk_success, w) =
      Keeps-option (find_granule plat w.pa) _ _ (search table_rules)
        (λ g. search (table_rules, exchange-Keeps) depth 12)

  pub host_call-Keeps :
      {a : Area} (w : S2WalkResult) (g : ℕ) (e : RecExit)
      → Keeps a (handle_rsi_host_call plat w g e)
  unfolding handle_rsi_host_call do_host_call
  host_call-Keeps w g e = search (table_rules, host_call_walked-Keeps) depth 20

  pub state_get-Keeps : {a : Area} (g : ℕ) → Keeps a (handle_rsi_ipa_state_get plat g)
  unfolding handle_rsi_ipa_state_get
  state_get-Keeps g = search (table_rules, by_found) depth 16
    where
      by_found :
          {a : Area} (x : RipasFound)
          → Keeps {A = RsiWalkSmcResult} a (elim x [
            | ripas_is ripas ↦ pure (to_realm rsi_success ripas)
            | destroyed_at level ↦ pure (to_host level)
          ])
      by_found (ripas_is ripas) = search keeps_rules
      by_found (destroyed_at level) = search keeps_rules

module _ (plat : Platform) (memory : ℕ → ℕ) where
  extend-Keeps :
      {a : Area} (alg current : ℕ) (regs : ℕ → ℕ) (n : ℕ)
      → Keeps a (measurement_extend plat memory alg current regs n)
  unfolding measurement_extend
  extend-Keeps alg current regs n = search (keeps_rules, get_size-Keeps) depth 12

  extend_locked-Keeps : {a : Area} (r : Rec) (g : ℕ) → Keeps a (extend_locked plat memory r g)
  unfolding extend_locked
  extend_locked-Keeps r g = search (keeps_rules, extend-Keeps) depth 12

  extend_found-Keeps : {a : Area} (r : Rec) (o : Option ℕ) → Keeps a (extend_found plat memory r o)
  unfolding extend_found
  extend_found-Keeps r none = search keeps_rules
  extend_found-Keeps r (some g) = search (table_rules, extend_locked-Keeps) depth 12

  pub extend_measurement-Keeps :
      {a : Area} (g : ℕ) → Keeps a (handle_rsi_extend_measurement plat memory g)
  unfolding handle_rsi_extend_measurement
  extend_measurement-Keeps g = search (table_rules, extend_found-Keeps) depth 12
