-- ===== src/Core/Area/Devices.antt =====
-- The delegation of device memory and the steps of the token leave the area of the host alone.
use acai_rmm.Common.{ℕ, zero, suc, if◌then◌else◌, ◌==◌, ◌!=◌, update}
use acai_rmm.State.{Platform, Rd, pure, ◌>>◌, write_page}
use acai_rmm.Granule.Ops.{granule_unlock}
use acai_rmm.Granule.Find.{find_granule}
use acai_rmm.Asc.{asc_mark_secure_dev, monitor_call_ok}
use acai_rmm.Rmi.Granule.{smc_granule_delegate_dev}
use acai_rmm.Rsi.Interface.{
  S2WalkResult, S2WalkStatus, walk_success, walk_invalid_params, walk_fail, rsi_success,
  rsi_error_input,
}
use acai_rmm.Rsi.DevMem.{
  DevMem, unlock_pages, page_walked, walk_pages, delegate_pages, handle_rsi_dev_mem,
}
use acai_rmm.Rsi.Attest.{
  TokenLibrary, AttestResult, SignStatus, sign_success, sign_in_progress, sign_failed,
  abort_ongoing, create_token, handle_rsi_attest_token_init, save_input_parameters, signed,
  attest_token_continue_sign_state, write_token, token_walked, attest_token_continue_write_state,
  handle_rsi_attest_token_continue, set_state, attest_sign_not_started, with_x0,
}
use acai_rmm.Core.Area.Keeps.{
  Area, Keeps, keeps_rules, Keeps-option, Keeps-panic, Keeps-bind, Keeps-cases,
}
use acai_rmm.Core.Area.Tables.{granule_lock-Keeps, granule_unlock-Keeps, ipa_to_pa-Keeps}

ruleset walk_rules = (keeps_rules, granule_lock-Keeps, granule_unlock-Keeps, ipa_to_pa-Keeps)

unlock_pages-Keeps : {a : Area} (k i : ℕ) (grs : ℕ → ℕ) → Keeps a (unlock_pages k i grs)
unfolding unlock_pages
unlock_pages-Keeps {a = a} zero i grs = search keeps_rules
unlock_pages-Keeps {a = a} (suc k) i grs =
    let ih = unlock_pages-Keeps {a = a} k (suc i) grs in search (keeps_rules, granule_unlock-Keeps)

module _ (plat : Platform) where
  page_walked-Keeps :
      {a : Area} (i : ℕ) (v : DevMem) (x : S2WalkStatus × S2WalkResult)
      → Keeps a (page_walked plat i v x)
  unfolding page_walked
  page_walked-Keeps i v (walk_fail, w) = search walk_rules
  page_walked-Keeps i v (walk_invalid_params, w) = search walk_rules
  page_walked-Keeps i v (walk_success, w) =
      Keeps-option (find_granule plat w.pa) _ _ (search keeps_rules)
        (λ g. search walk_rules depth 12)

  walk_pages-Keeps :
      {a : Area} (k i : ℕ) (ws : ℕ → S2WalkResult) (d : Rd) (v : DevMem)
      → Keeps a (walk_pages plat k i ws d v)
  unfolding walk_pages
  walk_pages-Keeps {a = a} zero i ws d v = search keeps_rules
  walk_pages-Keeps {a = a} (suc k) i ws d v =
      let ih = λ (n : DevMem). walk_pages-Keeps {a = a} k (suc i) ws d n in
      search (walk_rules, page_walked-Keeps, ih) depth 12

  delegate_dev-Keeps :
      {a : Area} (addr flag iova : ℕ) → Keeps a (smc_granule_delegate_dev plat addr flag iova)
  unfolding smc_granule_delegate_dev asc_mark_secure_dev monitor_call_ok
  delegate_dev-Keeps addr flag iova = search keeps_rules depth 12

  delegate_pages-Keeps :
      {a : Area} (k i flag : ℕ) (v : DevMem) → Keeps a (delegate_pages plat k i flag v)
  unfolding delegate_pages
  delegate_pages-Keeps {a = a} zero i flag v = search keeps_rules
  delegate_pages-Keeps {a = a} (suc k) i flag v =
      Keeps-bind _ _ (delegate_dev-Keeps (v.pas i) flag (v.ipas i)) (λ ret.
        Keeps-cases (flag != 0) _ _ (search keeps_rules)
          (delegate_pages-Keeps {a = a} k (suc i) flag _))

  pub dev_mem-Keeps :
      {a : Area} (ws : ℕ → S2WalkResult) (v : DevMem) (g : ℕ)
      → Keeps a (handle_rsi_dev_mem plat ws v g)
  unfolding handle_rsi_dev_mem
  dev_mem-Keeps ws v g =
      search (walk_rules, walk_pages-Keeps, delegate_pages-Keeps, unlock_pages-Keeps) depth 24

module _ (plat : Platform) (lib : TokenLibrary) where
  abort_ongoing-Keeps : {a : Area} (g : ℕ) → Keeps a (abort_ongoing plat lib g)
  unfolding abort_ongoing
  abort_ongoing-Keeps g = search (keeps_rules, Keeps-panic) depth 12

  create_token-Keeps : {a : Area} (g : ℕ) → Keeps a (create_token plat lib g)
  unfolding create_token
  create_token-Keeps g = Keeps-panic (λ s. lib.realm_token_create g s)

  save-Keeps : {a : Area} (g : ℕ) → Keeps a (save_input_parameters g)
  unfolding save_input_parameters
  save-Keeps g = search keeps_rules

  pub token_init-Keeps : {a : Area} (g : ℕ) → Keeps a (handle_rsi_attest_token_init plat lib g)
  unfolding handle_rsi_attest_token_init
  token_init-Keeps g =
      search (walk_rules, abort_ongoing-Keeps, create_token-Keeps, save-Keeps) depth 24

  signed-Keeps :
      {a : Area} (g : ℕ) (x : SignStatus) (res : AttestResult) → Keeps a (signed plat lib g x res)
  unfolding signed
  signed-Keeps g sign_failed res = record { at = λ s h. tt }
  signed-Keeps g sign_in_progress res = record { at = λ s h. h }
  signed-Keeps g sign_success res = record {
    at = λ s h. record { sysregs = h.sysregs; icc_sre = h.icc_sre };
  }

  sign_state-Keeps :
      {a : Area} (g : ℕ) (res : AttestResult)
      → Keeps a (attest_token_continue_sign_state plat lib g res)
  unfolding attest_token_continue_sign_state
  sign_state-Keeps g res = record {
    at = λ s h. (signed-Keeps g (lib.realm_token_sign g s) res).at s h;
  }

  write_token-Keeps :
      {a : Area} (g gr : ℕ) (w : S2WalkResult) (res : AttestResult)
      → Keeps a (write_token plat lib g gr w res)
  unfolding write_token
  write_token-Keeps {a = a} g gr w res = record {
    at = λ s h. (written (lib.cca_token_create g s).0 (lib.cca_token_create g s).1).at s h;
  }
    where
      written :
          (page : ℕ → ℕ) (len : ℕ)
          → Keeps a (
              write_page gr page
              >> granule_unlock w.llt
              >> set_state g attest_sign_not_started
              >> pure (
                  if len == 0
                  then with_x0 res rsi_error_input
                  else record res { smc_res = update (update res.smc_res 0 rsi_success) 1 len }))
      written page len = search walk_rules depth 16

  token_walked-Keeps :
      {a : Area} (g : ℕ) (res : AttestResult) (x : S2WalkStatus × S2WalkResult)
      → Keeps a (token_walked plat lib g res x)
  unfolding token_walked
  token_walked-Keeps g res (walk_invalid_params, w) = search keeps_rules
  token_walked-Keeps g res (walk_fail, w) = search keeps_rules
  token_walked-Keeps g res (walk_success, w) =
      Keeps-option (find_granule plat w.pa) _ _ (search keeps_rules)
        (λ gr. write_token-Keeps g gr w res)

  write_state-Keeps :
      {a : Area} (g : ℕ) (res : AttestResult)
      → Keeps a (attest_token_continue_write_state plat lib g res)
  unfolding attest_token_continue_write_state
  write_state-Keeps g res = search (walk_rules, token_walked-Keeps) depth 12

  pub token_continue-Keeps :
      {a : Area} (g : ℕ) (given : AttestResult)
      → Keeps a (handle_rsi_attest_token_continue plat lib g given)
  unfolding handle_rsi_attest_token_continue
  token_continue-Keeps g given = search (keeps_rules, sign_state-Keeps, write_state-Keeps) depth 16
