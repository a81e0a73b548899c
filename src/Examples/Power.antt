-- ===== src/Examples/Power.antt =====
-- Runs of the power interface of a realm.
use acai_rmm.Common.{
  ℕ, ◌%◌, ◌^◌, ◌<◌, ◌≡◌, ◌↔◌, refl, true, false, arith, ◌==◌, if◌then◌else◌, update,
}
use acai_rmm.State.{Rmm, Rec, rec, zero_rec, done, fault, assertion}
use acai_rmm.S2tt.Level.{shift_left}
use acai_rmm.Rsi.Interface.{addr_in_rec_par, rec_par_size}
use acai_rmm.Rsi.Psci.{
  PsciResult, psci_forward, mpidr_is_valid, mpidr_to_rec_idx, psci_rsi, psci_complete_request,
  is_on, complete_call, complete_psci_affinity_info,
}
use acai_rmm.Rsi.Psci.Index.{mpidr_of, mpidr_of-mpidr_to_rec_idx}
use acai_rmm.Rsi.Psci.Completion.{
  CanRequest, CanStart, requested, completed, call_and_complete, call_and_complete-assertion,
  psci_complete_request-once, cpu_on-starts,
}
use acai_rmm.Examples.Setting.{start, granule_in}

mpidr_of-mpidr_to_rec_idx_example :
    (mpidr_to_rec_idx 0x100 < 2 ^ 28) × (mpidr_of (mpidr_to_rec_idx 0x100) ≡ 0x100)
unfolding mpidr_is_valid
mpidr_of-mpidr_to_rec_idx_example = mpidr_of-mpidr_to_rec_idx 0x100 (omega arith) refl

-- Context 4 has a request that is pending for context 6; its register 0 is given.
abbrev pub caller : ℕ → Rec
caller call = record zero_rec {
  g_rec = 4;
  rec_idx = 0;
  regs = λ i. if i == 0 then call else if i == 1 then 1 else if i == 2 then 0x1000 else 0;
  runnable = true;
  psci_pending = true;
  realm_info = record { ipa_bits = 32; s2_starting_level = 2; g_rtt = 1; g_rd = 0 };
}

abbrev callee : Rec
callee = record zero_rec {
  g_rec = 6;
  rec_idx = 1;
  realm_info = record { ipa_bits = 32; s2_starting_level = 2; g_rtt = 1; g_rd = 0 };
}

abbrev two_contexts : ℕ → Rmm
two_contexts call = record start {
  granules = λ i.
      if i == 4 then granule_in rec 0 else if i == 6 then granule_in rec 0 else start.granules i;
  rds = λ i. if i == 0 then record (start.rds 0) { rec_count = 2 } else start.rds i;
  recs = λ i. if i == 4 then caller call else if i == 6 then callee else zero_rec;
}

abbrev no_result : PsciResult
no_result = record { forward_psci_call = false; x1 = 0; smc_x0 = 0; smc_rest = λ _. 7 }

-- The call is not made yet.
abbrev calling : ℕ → Rmm
calling call = record (two_contexts call) {
  recs = update (two_contexts call).recs 4 (record (caller call) { psci_pending = false });
}

can_request : (call : ℕ) → CanRequest (calling call) 4 6
unfolding mpidr_to_rec_idx addr_in_rec_par rec_par_size shift_left
can_request call = record {
  protected = refl;
  exists = omega arith;
  other = omega arith;
  same_realm = refl;
  target = refl;
}

call_and_complete-assertion_example :
    (psci_rsi no_result 4 (0x1c4000003 % 2 ^ 32) 1 0x1000 0 (calling 0x1c4000003)
      ≡ done (psci_forward 1) (requested 4 (calling 0x1c4000003)))
    × (call_and_complete no_result 4 6 (calling 0x1c4000003) ≡ fault assertion)
call_and_complete-assertion_example =
    call_and_complete-assertion no_result 4 6 (calling 0x1c4000003) refl (omega arith)
      (can_request 0x1c4000003)

abbrev after_affinity_info : Rmm
after_affinity_info = record (two_contexts 0xc4000004) {
  recs = update (two_contexts 0xc4000004).recs 4 (record (caller 0xc4000004) {
    regs = update (update (update (update (caller 0xc4000004).regs 0 1) 1 0) 2 0) 3 0;
    psci_pending = false;
  });
}

psci_complete_request-once_example :
    psci_complete_request 4 6 after_affinity_info ≡ done 1 after_affinity_info
unfolding psci_complete_request complete_call complete_psci_affinity_info is_on mpidr_to_rec_idx
psci_complete_request-once_example =
    psci_complete_request-once 4 6 6 (two_contexts 0xc4000004) after_affinity_info refl

cpu_on-starts_example :
    (call_and_complete no_result 4 6 (calling 0xc4000003)
      ≡ done 0 (completed 4 6 (calling 0xc4000003)))
    ↔ CanStart (calling 0xc4000003) 4 6
cpu_on-starts_example = cpu_on-starts no_result 4 6 (calling 0xc4000003) refl refl

-- The right side holds.
can_start : CanStart (calling 0xc4000003) 4 6
can_start = record { request = can_request 0xc4000003; idle = refl; off = refl }
