-- ===== src/Core/Run/Loop.antt =====
-- runtime/core/run.c: the loop that runs a realm until the host is needed.
pub mod Host
use acai_rmm.Common.{ℕ, zero, suc, ◌^◌, Bool, true, false, not, ◌||◌, leb, ◌==◌, if◌then◌else◌}
use acai_rmm.State.{
  Platform, data_granule, same_state, Rec, NsState, Rmm, Command, done, fault, deadlock, pure,
  ◌>>=◌, ◌>>◌, assert, read_rec, write_rec,
}
use acai_rmm.Rsi.Interface.{RecExit}
use acai_rmm.Core.Machine.{Machine, RealmExit}
use acai_rmm.Core.Registers.{read_cpu, write_cpu, write_cptr_el2}
use acai_rmm.Core.Timers.{TimerExit, check_pending_timers, report_timer_state_to_ns}
use acai_rmm.Core.Exit.Services.{rmi_exit_irq}
use acai_rmm.Core.Exit.Sync.{with_fpen, with_zen, handle_realm_exit}
use acai_rmm.Core.Run.Switch.{
  save_realm_state, restore_realm_state, configure_realm_stage2, save_ns_state, restore_ns_state,
  activate_events,
}

abbrev pub rec_heap_pages : ℕ
rec_heap_pages = 2

unfoldable pub init_aux_data : ℕ → Command (Unit {0})
init_aux_data num_rec_aux = assert (leb rec_heap_pages num_rec_aux)

-- `run_realm(&rec->regs[0])`: the realm runs, and only the pages of data granules are its memory.
unfoldable pub run_realm : Machine → ℕ → Command ℕ
run_realm m g_rec s =
    let x = m.run_realm g_rec s in
    (do
      r ← read_rec g_rec
      write_rec g_rec (record r { regs = x.regs })
      c ← read_cpu
      write_cpu (record c {
        el1 = x.el1;
        elr_el2 = x.elr_el2;
        spsr_el2 = x.spsr_el2;
        esr_el2 = x.esr_el2;
        far_el2 = x.far_el2;
        hpfar_el2 = x.hpfar_el2;
        vectors = x.vectors;
      })
      (λ t. done x.exception (record t {
        page =
            λ g i. if same_state (t.granules g).state data_granule then x.page g i else t.page g i;
      })))
      s

-- The start of the heap of the attestation, once for each context.
unfoldable pub attach_heap : ℕ → Command (Unit {0})
attach_heap g_rec = do r ← read_rec g_rec; write_rec g_rec (record r { ctx_initialised = true })

abbrev pub with_ns_data : (NsState → NsState) → Command (Unit {0})
with_ns_data f = do c ← read_cpu; write_cpu (record c { ns_data = f c.ns_data })

-- The vector registers of the realm are kept, and the host's are loaded again, where it used them.
unfoldable pub give_back_vectors : ℕ → Command (Unit {0})
give_back_vectors g_rec = do
  r ← read_rec g_rec
  if r.fpu_ctx.used
      then (do
        c ← read_cpu
        write_cptr_el2 (with_zen 3 c.cptr_el2)
        c1 ← read_cpu
        assert (c1.ns_data.sve_set || c1.ns_data.fpu_set)
        write_cpu (record c1 { vectors = c1.ns_data.vectors })
        c2 ← read_cpu
        write_cptr_el2 (with_zen 0 (with_fpen 0 c2.cptr_el2))
        write_rec g_rec (record r { fpu_ctx = record { fpu = c1.vectors; used = false } }))
      else pure tt

module _ (plat : Platform) (m : Machine) where
  -- The rounds of the loop, at most `rounds`; `goes_on` is its test.
  unfoldable pub realm_rounds : ℕ → ℕ → RecExit → Command RecExit
  unfolding run_realm
  realm_rounds zero g_rec rec_exit = λ s. fault deadlock
  realm_rounds (suc rounds) g_rec rec_exit =
      check_pending_timers m m.patience g_rec >>= λ pending s. elim pending [
        | true ↦ done (record rec_exit { exit_reason = rmi_exit_irq }) s
        | false ↦
            ((do
              activate_events g_rec
              code ← run_realm m g_rec
              handle_realm_exit plat m g_rec rec_exit code)
                >>= λ result t. elim result.0 [
                  | true ↦ realm_rounds rounds g_rec result.1 t
                  | false ↦ done result.1 t
                ])
              s
      ]

  -- What is done before the loop, and after it.
  unfoldable pub enter_realm : ℕ → Command (Unit {0})
  unfolding init_aux_data attach_heap
  enter_realm g_rec = do
    r ← read_rec g_rec
    c ← read_cpu
    assert (not r.ns_set)
    assert (not c.ns_data.sve_set)
    assert (not c.ns_data.fpu_set)
    init_aux_data r.num_rec_aux
    attach_heap g_rec
    with_ns_data
        (λ n. if m.sve_present then record n { sve_set = true } else record n { fpu_set = true })
    save_ns_state
    restore_realm_state m.features g_rec
    r' ← read_rec g_rec
    write_rec g_rec (record r' { ns_set = true })
    assert (not r'.fpu_ctx.used)
    configure_realm_stage2 g_rec

  unfoldable pub leave_realm : ℕ → Command TimerExit
  unfolding give_back_vectors
  leave_realm g_rec = do
    give_back_vectors g_rec
    with_ns_data (λ n. record n { sve_set = false; fpu_set = false })
    r ← read_rec g_rec
    write_rec g_rec (record r { ns_set = false })
    timers ← report_timer_state_to_ns
    save_realm_state m.features g_rec
    restore_ns_state
    pure timers

  unfoldable pub rec_run_loop : ℕ → ℕ → RecExit → Command (RecExit × TimerExit)
  unfolding enter_realm realm_rounds leave_realm
  rec_run_loop rounds g_rec rec_exit = do
    enter_realm g_rec
    e ← realm_rounds rounds g_rec rec_exit
    timers ← leave_realm g_rec
    pure (e, timers)
