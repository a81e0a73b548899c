-- ===== src/Rsi/Psci/Completion.antt =====
-- runtime/rsi/psci.c: a request of a realm and its completion by the host.
use acai_rmm.Common.{
  ℕ, ◌%◌, ◌^◌, ◌<◌, ◌≤◌, ◌≡◌, ◌≢◌, ◌↔◌, refl, sym, ap, fun_ext, true, false, ◌∙◌, arith, update,
}
use acai_rmm.State.{Rec, Rmm, Outcome, done, fault, assertion, Command, ◌>>=◌, ◌>>◌, read_rec}
use acai_rmm.Status.{rmi_success, rmi_error_input}
use acai_rmm.Rsi.Interface.{addr_in_rec_par}
use acai_rmm.Rsi.Psci.{
  PsciResult, smc64_psci_cpu_on, psci_return_success, psci_forward, result_regs, mpidr_to_rec_idx,
  psci_reset_rec, psci_cpu_on, request_target, rd_map_read_rec_count, is_on, complete_psci_cpu_on,
  complete_psci_affinity_info, complete_call, psci_complete_request, psci_rsi,
}

-- A completion that succeeds leaves no request pending.
not_pending :
    (c t : ℕ) (s s' : Rmm)
    → psci_complete_request c t s ≡ done rmi_success s'
    → (s'.recs c).psci_pending ≡ false
unfolding psci_complete_request complete_call complete_psci_cpu_on complete_psci_affinity_info is_on
not_pending c t s s' h = ground (arith, h)

-- A request is completed once: after a completion that succeeded, another one for the same caller is
-- refused and changes nothing.
pub psci_complete_request-once :
    (c t u : ℕ) (s s' : Rmm)
    → psci_complete_request c t s ≡ done rmi_success s'
    → psci_complete_request c u s' ≡ done rmi_error_input s'
psci_complete_request-once c t u s s' h =
    let idle = not_pending c t s s' h in unfold psci_complete_request in rw idle refl

-- The context that a call of `psci_cpu_on` started.
abbrev pub started : ℕ → ℕ → Rec → Rec
started entry caller_sctlr_el1 r = record (psci_reset_rec r caller_sctlr_el1) {
  pc = entry;
  runnable = true;
}

abbrev pub answered : Rec → Rec
answered r = record r { regs = result_regs r.regs psci_return_success; psci_pending = false }

-- What lets context `c` ask that `t` starts: the entry point is a protected address, and `t` is another
-- existing context of the realm.
pub record CanRequest (s : Rmm) (c t : ℕ) : Type 0 where
  pub protected : addr_in_rec_par (s.recs c) ((s.recs c).regs 2) ≡ true
  pub exists : mpidr_to_rec_idx ((s.recs c).regs 1) < (s.rds (s.recs c).realm_info.g_rd).rec_count
  pub other : mpidr_to_rec_idx ((s.recs c).regs 1) ≢ (s.recs c).rec_idx
  pub same_realm : (s.recs c).realm_info.g_rd ≡ (s.recs t).realm_info.g_rd
  pub target : mpidr_to_rec_idx ((s.recs c).regs 1) ≡ (s.recs t).rec_idx

-- And `t` is neither running nor runnable.
pub record CanStart (s : Rmm) (c t : ℕ) : Type 0 where
  pub request : CanRequest s c t
  pub idle : (s.granules (s.recs t).g_rec).refcount ≡ 0
  pub off : (s.recs t).runnable ≡ false

-- The call of context `c` as it is dispatched, and the completion by the host for context `t`.
abbrev pub call_and_complete : PsciResult → ℕ → ℕ → Command ℕ
call_and_complete given c t = do
  r ← read_rec c
  psci_rsi given c (r.regs 0 % 2 ^ 32) (r.regs 1) (r.regs 2) (r.regs 3)
  psci_complete_request c t

abbrev pub requested : ℕ → Rmm → Rmm
requested c s = record s { recs = update s.recs c (record (s.recs c) { psci_pending = true }) }

abbrev pub completed : ℕ → ℕ → Rmm → Rmm
completed c t s = record s {
  recs =
      update (update s.recs t (started ((s.recs c).regs 2) (s.recs c).sysregs.sctlr_el1 (s.recs t)))
        c (answered (s.recs c));
}

-- What the host and the caller read after the completion.
abbrev code_of : Outcome ℕ → ℕ
code_of (done x s) = x
code_of (fault f) = 1

abbrev answer_of : ℕ → Outcome ℕ → ℕ
answer_of c (done x s) = (s.recs c).regs 0
answer_of c (fault f) = 0

module _ (given : PsciResult) (c t : ℕ) (s : Rmm) where
  requests :
      CanRequest s c t
      → (s.recs c).regs 0 % 2 ^ 32 ≡ smc64_psci_cpu_on
      → psci_rsi given c
          ((s.recs c).regs 0 % 2 ^ 32)
          ((s.recs c).regs 1)
          ((s.recs c).regs 2)
          ((s.recs c).regs 3)
          s
        ≡ done (psci_forward ((s.recs c).regs 1)) (requested c s)
  unfolding psci_rsi psci_cpu_on request_target rd_map_read_rec_count
  requests can call = ground (arith, call, can.protected, can.exists, can.other)

  other-context : CanRequest s c t → c ≢ t
  other-context can e = can.other (can.target ∙ ap (λ g. Rec.rec_idx (s.recs g)) (sym e))

  completes :
      CanStart s c t
      → (s.recs c).regs 0 ≡ smc64_psci_cpu_on
      → psci_complete_request c t (requested c s) ≡ done rmi_success (completed c t (requested c s))
  unfolding psci_complete_request complete_call complete_psci_cpu_on is_on
  completes can call = ground (
    arith,
    other-context can.request,
    call,
    can.request.same_realm,
    can.request.target,
    can.idle,
    can.off,
  )

  once_more : CanRequest s c t → completed c t (requested c s) ≡ completed c t s
  once_more can =
      ap (λ (r : ℕ → Rec). record s { recs = r }) (fun_ext λ k. ground (arith, other-context can))

  starts :
      (s.recs c).regs 0 ≡ smc64_psci_cpu_on
      → CanStart s c t
      → call_and_complete given c t s ≡ done rmi_success (completed c t s)
  starts call can =
      rw (requests can.request (ground (arith, call)))
        (completes can call ∙ ap (done rmi_success) (once_more can.request))

  -- Each check is needed for a completion that succeeds and answers with success.
  is_checked :
      (s.recs c).regs 0 ≡ smc64_psci_cpu_on
      → (s.recs c).psci_pending ≡ false
      → code_of (call_and_complete given c t s) ≡ 0
      → answer_of c (call_and_complete given c t s) ≡ 0
      → CanStart s c t
  unfolding psci_rsi psci_cpu_on request_target rd_map_read_rec_count psci_complete_request
      complete_call complete_psci_cpu_on is_on
  is_checked call idle h x = record {
    request = record {
      protected = ground (arith, call, idle, h, x);
      exists = ground (arith, call, idle, h, x);
      other = λ e. ground (arith, call, idle, h, x, e);
      same_realm = ground (arith, call, idle, h, x);
      target = ground (arith, call, idle, h, x);
    };
    idle = ground (arith, call, idle, h, x);
    off = ground (arith, call, idle, h, x);
  }

  -- A context without a pending request makes a 64-bit CPU_ON, and psci_complete_request completes
  -- it with context `t`. Both succeed, with `t` reset and runnable at the entry point, the caller
  -- reading success with no request pending, and nothing else changed, exactly when the entry point
  -- is a protected address and `t` is the target, another existing context of the same realm, which
  -- is neither running nor runnable.
  pub cpu_on-starts :
      (s.recs c).regs 0 ≡ smc64_psci_cpu_on
      → (s.recs c).psci_pending ≡ false
      → (call_and_complete given c t s ≡ done rmi_success (completed c t s)) ↔ CanStart s c t
  cpu_on-starts call idle =
      (λ h. is_checked call idle (ap code_of h) (ap (answer_of c) h ∙ ground arith), starts call)

  fails :
      CanRequest s c t
      → 2 ^ 32 ≤ (s.recs c).regs 0
      → psci_complete_request c t (requested c s) ≡ fault assertion
  unfolding psci_complete_request complete_call
  fails can upper = ground (arith, other-context can, upper, can.same_realm, can.target)

  -- A context calls with the identifier of a 64-bit CPU_ON in the low half of register 0 and a bit
  -- set in the upper half, a protected entry point and another existing context of its realm as the
  -- target: the call is accepted and forwarded, and its completion by the host with that target makes
  -- an assertion of the monitor fail.
  pub call_and_complete-assertion :
      (s.recs c).regs 0 % 2 ^ 32 ≡ smc64_psci_cpu_on
      → 2 ^ 32 ≤ (s.recs c).regs 0
      → CanRequest s c t
      → (psci_rsi given c
            ((s.recs c).regs 0 % 2 ^ 32)
            ((s.recs c).regs 1)
            ((s.recs c).regs 2)
            ((s.recs c).regs 3)
            s
          ≡ done (psci_forward ((s.recs c).regs 1)) (requested c s))
        × (call_and_complete given c t s ≡ fault assertion)
  call_and_complete-assertion call upper can =
      (requests can call, rw (requests can call) (fails can upper))
