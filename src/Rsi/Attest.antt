-- ===== src/Rsi/Attest.antt =====
-- runtime/rsi/realm_attest.c: the attestation token of a realm, made in steps. What the token library
-- of lib/attestation answers is a parameter.
use acai_rmm.Common.{ℕ, ◌+◌, Bool, true, false, not, none, some, ◌==◌, ◌!=◌, if◌then◌else◌, update}
use acai_rmm.State.{
  Platform, Rec, Rmm, rd, Command, done, fault, panic, pure, ◌>>=◌, ◌>>◌, assert, read_rd, read_rec,
  write_rec, write_page,
}
use acai_rmm.Granule.Ops.{granule_lock, granule_unlock}
use acai_rmm.Granule.Find.{granule_aligned, find_granule}
use acai_rmm.S2tt.Entry.{rmi_empty}
use acai_rmm.Rmi.Rtt.Validate.{addr_in_par}
use acai_rmm.Rsi.Interface.{
  S2WalkStatus, walk_success, walk_invalid_params, walk_fail, S2WalkResult,
  s2_walk_result_match_ripas, RsiWalkResult, rsi_success, rsi_error_input,
}
use acai_rmm.Rsi.Ipa.{realm_ipa_to_pa}

abbrev pub rsi_error_state : ℕ
rsi_error_state = 2

abbrev pub rsi_incomplete : ℕ
rsi_incomplete = 3

-- `enum attest_token_gen_state_t`
abbrev pub attest_sign_not_started : ℕ
attest_sign_not_started = 0

abbrev pub attest_sign_in_progress : ℕ
attest_sign_in_progress = 1

abbrev pub attest_sign_token_write_in_progress : ℕ
attest_sign_token_write_in_progress = 2

-- What `attest_realm_token_sign` returns, of `enum attest_token_err_t`.
pub data SignStatus : Type 0 where
  sign_success sign_in_progress sign_failed : SignStatus

-- The library: whether the heap is set up again and the token is created, how a step of signing
-- ends, and the written page with the length of the token.
pub record TokenLibrary : Type 0 where
  pub heap_reinit : Rmm → ℕ
  pub realm_token_create : ℕ → Rmm → ℕ
  pub realm_token_sign : ℕ → Rmm → SignStatus
  pub cca_token_create : ℕ → Rmm → (ℕ → ℕ) × ℕ

-- `struct attest_result`; the registers that no function sets are those of the variable given.
pub record AttestResult : Type 0 where
  pub incomplete : Bool
  pub walk_result : RsiWalkResult
  pub smc_res : ℕ → ℕ

abbrev pub with_x0 : AttestResult → ℕ → AttestResult
with_x0 res x0 = record res { smc_res = update res.smc_res 0 x0 }

unfoldable pub save_input_parameters : ℕ → Command (Unit {0})
save_input_parameters g_rec = do
  r ← read_rec g_rec
  write_rec g_rec (record r {
    token_sign_ctx = record r.token_sign_ctx {
      token_ipa = r.regs 1;
      challenge = λ i. r.regs (2 + i);
    };
  })

unfoldable pub verify_input_parameters_consistency : Rec → Bool
verify_input_parameters_consistency r = r.token_sign_ctx.token_ipa == r.regs 1

abbrev pub set_state : ℕ → ℕ → Command (Unit {0})
set_state g_rec state = do
  r ← read_rec g_rec
  write_rec g_rec (record r { token_sign_ctx = record r.token_sign_ctx { state = state } })

module _ (plat : Platform) (lib : TokenLibrary) where
  unfoldable pub abort_ongoing : ℕ → Command (Unit {0})
  abort_ongoing g_rec = do
    r ← read_rec g_rec
    if r.token_sign_ctx.state != attest_sign_not_started
        then (do
          set_state g_rec attest_sign_not_started
          (λ s. if lib.heap_reinit s != 0 then fault panic else done tt s))
        else pure tt

  unfoldable pub create_token : ℕ → Command (Unit {0})
  create_token g_rec s = if lib.realm_token_create g_rec s != 0 then fault panic else done tt s

  unfoldable pub handle_rsi_attest_token_init : ℕ → Command ℕ
  unfolding abort_ongoing create_token save_input_parameters
  handle_rsi_attest_token_init g_rec = do
    abort_ongoing g_rec
    r ← read_rec g_rec
    let realm_buf_ipa = r.regs 1
    if not (granule_aligned realm_buf_ipa) then pure rsi_error_input else (do
      granule_lock r.realm_info.g_rd rd
      d ← read_rd r.realm_info.g_rd
      ret ←
          (if not (addr_in_par d realm_buf_ipa) then pure rsi_error_input else (do
            save_input_parameters g_rec
            create_token g_rec
            set_state g_rec attest_sign_in_progress
            pure rsi_success))
      granule_unlock r.realm_info.g_rd
      pure ret)

  unfoldable pub signed : ℕ → SignStatus → AttestResult → Command AttestResult
  signed g_rec sign_failed res s = fault panic
  signed g_rec sign_in_progress res s =
      done (with_x0 (record res { incomplete = true }) rsi_incomplete) s
  signed g_rec sign_success res s =
      (set_state g_rec attest_sign_token_write_in_progress
          >> pure (with_x0 (record res { incomplete = true }) rsi_incomplete))
        s

  unfoldable pub attest_token_continue_sign_state : ℕ → AttestResult → Command AttestResult
  unfolding signed
  attest_token_continue_sign_state g_rec res s = signed g_rec (lib.realm_token_sign g_rec s) res s

  unfoldable pub write_token : ℕ → ℕ → S2WalkResult → AttestResult → Command AttestResult
  write_token g_rec gr walk_res res s =
      let token = lib.cca_token_create g_rec s in
      (write_page gr token.0
          >> granule_unlock walk_res.llt
          >> set_state g_rec attest_sign_not_started
          >> pure (
              if token.1 == 0
              then with_x0 res rsi_error_input
              else record res { smc_res = update (update res.smc_res 0 rsi_success) 1 token.1 }))
        s

  unfoldable pub token_walked :
      ℕ → AttestResult → S2WalkStatus × S2WalkResult → Command AttestResult
  unfolding write_token
  token_walked g_rec res (walk_invalid_params, walk_res) = assert false >> pure res
  token_walked g_rec res (walk_fail, walk_res) =
      if s2_walk_result_match_ripas walk_res rmi_empty
      then pure (with_x0 res rsi_error_input)
      else pure (
          with_x0
            (record res { walk_result = record { abort = true; rtt_level = walk_res.rtt_level } })
            rsi_incomplete)
  token_walked g_rec res (walk_success, walk_res) = elim (find_granule plat walk_res.pa) [
    | none ↦ assert false >> pure res
    | some gr ↦ write_token g_rec gr walk_res res
  ]

  unfoldable pub attest_token_continue_write_state : ℕ → AttestResult → Command AttestResult
  unfolding token_walked
  attest_token_continue_write_state g_rec res = do
    r ← read_rec g_rec
    d ← read_rd r.realm_info.g_rd
    walked ←
        realm_ipa_to_pa plat d (r.regs 1)
          (record { pa = 0; rtt_level = 0; ripas = 0; destroyed = false; llt = 0 })
    token_walked g_rec res walked

  unfoldable pub handle_rsi_attest_token_continue : ℕ → AttestResult → Command AttestResult
  unfolding verify_input_parameters_consistency attest_token_continue_sign_state
      attest_token_continue_write_state
  handle_rsi_attest_token_continue g_rec given = do
    let res : AttestResult = record given {
      incomplete = false;
      walk_result = record given.walk_result { abort = false };
    }
    r ← read_rec g_rec
    if not (verify_input_parameters_consistency r)
        then pure (with_x0 res rsi_error_input)
        else if r.token_sign_ctx.state == attest_sign_not_started
        then pure (with_x0 res rsi_error_state)
        else if r.token_sign_ctx.state == attest_sign_in_progress
        then attest_token_continue_sign_state g_rec res
        else if r.token_sign_ctx.state == attest_sign_token_write_in_progress
        then attest_token_continue_write_state g_rec res
        else assert false >> pure res
