-- ===== src/Core/Exit/Services/Refused.antt =====
-- runtime/core/exit.c: two answers to a realm that are not what the source means.
use acai_rmm.Common.{ℕ, suc, ◌%◌, ◌^◌, ◌≡◌, refl, update, true, false, if◌then◌else◌, ltb}
use acai_rmm.State.{Platform, Rmm, done}
use acai_rmm.Rsi.Interface.{RecExit, rsi_error_input}
use acai_rmm.Rsi.Psci.{smccc_version}
use acai_rmm.Rsi.Attest.{
  AttestResult, handle_rsi_attest_token_continue, verify_input_parameters_consistency,
}
use acai_rmm.Core.Machine.{Machine}
use acai_rmm.Core.Smc.{
  smc_unknown, is_smc32_psci_fid, is_smc64_psci_fid, is_smc64_rsi_fid, is_smc32_fid_std_fast,
  is_smc64_fid_std_fast,
}
use acai_rmm.Core.Exit.Services.{
  handle_realm_rsi, attest_token_continue, token_ends, return_result_to_realm,
}

-- A realm that asks for the version of the calling convention is answered SMC_UNKNOWN: the case of
-- the switch for it is not reached. Register 0 alone changes.
pub handle_realm_rsi-version :
    (plat : Platform) (m : Machine) (g : ℕ) (e : RecExit) (s : Rmm)
    → (s.recs g).regs 0 % 2 ^ 32 ≡ smccc_version
    → handle_realm_rsi plat m g e s
      ≡ done
          (true, e)
          (record s {
            recs =
                update s.recs g (record (s.recs g) { regs = update (s.recs g).regs 0 smc_unknown });
          })
unfolding handle_realm_rsi is_smc32_psci_fid is_smc64_psci_fid is_smc64_rsi_fid
    is_smc32_fid_std_fast is_smc64_fid_std_fast
handle_realm_rsi-version plat m g e s h = rw h refl

-- The realm continues a token with another address than it began with: it reads the error in
-- register 0, and in the registers 1 to 3 what the variable of the monitor held, which the source
-- does not initialise.
pub attest_token_continue-uninitialised :
    (plat : Platform) (m : Machine) (rounds n g : ℕ) (e : RecExit) (res : AttestResult) (s : Rmm)
    → verify_input_parameters_consistency (s.recs g) ≡ false
    → attest_token_continue plat m (suc rounds) n g e res s
      ≡ done
          (true, e)
          (record s {
            recs = update s.recs g (record (s.recs g) {
              regs = λ i.
                  if ltb i 4 then update res.smc_res 0 rsi_error_input i else (s.recs g).regs i;
            });
          })
unfolding attest_token_continue token_ends return_result_to_realm handle_rsi_attest_token_continue
attest_token_continue-uninitialised plat m rounds n g e res s h = rw h refl
