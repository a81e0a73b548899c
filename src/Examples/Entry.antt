-- ===== src/Examples/Entry.antt =====
-- Runs of the entry of an execution context, and of the exits of a realm.
use acai_rmm.Common.{
  ℕ, ◌+◌, ◌-◌, ◌*◌, ◌^◌, ◌≡◌, refl, arith, true, false, some, update, if◌then◌else◌, ◌==◌, bit_and,
  ltb,
}
use acai_rmm.State.{Granule, Rec, zero_rd, Rmm, Outcome, done, fault, ◌>>◌, zero_sysregs, zero_rec}
use acai_rmm.State.Fvp.{plat_granule_addr_to_idx}
use acai_rmm.Granule.Ops.{
  unlocked_invariants, granule_lock, granule_lock_on_state_match, granule_unlock,
}
use acai_rmm.Granule.Find.{find_granule, addr_to_granule}
use acai_rmm.S2tt.Level.{shift_left, s2_sl_addr_to_idx, s2_addr_to_idx, addr_level_mask}
use acai_rmm.S2tt.Entry.{entry_is_table, table_entry_to_phys, s2tte_is_destroyed, s2tte_get_ripas}
use acai_rmm.S2tt.Walk.{rtt_walk_lock_unlock, find_lock_next_level}
use acai_rmm.Rmi.Realm.Create.{hash_algo_sha512}
use acai_rmm.Granule.Quiet.{with_granules}
use acai_rmm.Rsi.Interface.{S2WalkResult, addr_in_rec_par, RecExit}
use acai_rmm.Rsi.Attest.{sign_in_progress, verify_input_parameters_consistency}
use acai_rmm.Rsi.Measurements.{extend_locked}
use acai_rmm.Rsi.Measurements.Ignored.{extend_locked-sha512}
use acai_rmm.Core.Machine.{Machine}
use acai_rmm.Core.Esr.{esr_is_write, esr_srt, esr_sign_extend, esr_sas, esr_sixty_four, fault_ipa}
use acai_rmm.Core.Exit.Aborts.{ipa_is_empty, fsc_is_external_abort}
use acai_rmm.Core.Exit.Sync.{handle_realm_exit}
use acai_rmm.Core.Timers.{
  report_timer_state_to_ns, masked_interrupts, timer_asserted, TimerExit, check_pending_timers,
}
use acai_rmm.Core.Timers.Waiting.{with_masks, check_pending_timers_lem}
use acai_rmm.Core.Timers.Masking.{masked_interrupts_lem}
use acai_rmm.Core.Exit.Services.{handle_realm_rsi, attest_token_continue}
use acai_rmm.Core.Exit.Services.Refused.{
  handle_realm_rsi-version, attest_token_continue-uninitialised,
}
use acai_rmm.Core.Run.Switch.{
  save_ns_state, restore_realm_state, configure_realm_stage2, save_realm_state, restore_ns_state,
  activate_events,
}
use acai_rmm.Core.Run.Loop.{enter_realm, leave_realm, realm_rounds, rec_run_loop}
use acai_rmm.Core.Run.Loop.Host.{IsRestored}
use acai_rmm.Core.Area.HostRegisters.{rec_run_loop-IsRestored}
use acai_rmm.Core.Handler.{handler_of, entry_at, granule_delegate}
use acai_rmm.Core.Handler.Dispatch.{handler_of_lem}
use acai_rmm.Rmi.Run.Completion.{RecEntry, complete_mmio_emulation}
use acai_rmm.Rmi.Run.Completion.Emulated.{complete_mmio_emulation_lem}
use acai_rmm.Rmi.Run.Completion.Protected.{
  IsProtectedAbort, shown, kept, after_emulation, handle_realm_exit-emulated,
}
use acai_rmm.Rmi.Run.Enter.{smc_rec_enter, entry_refused, zero_exit}
use acai_rmm.Rmi.Run.Enter.NotRun.{smc_rec_enter-refused}
use acai_rmm.Examples.Setting.{board, start, with_context, with_context-IsClean}

abbrev no_walk : S2WalkResult
no_walk = record { pa = 0; rtt_level = 0; ripas = 0; destroyed = false; llt = 0 }

-- A machine whose realm never runs, whose first reading shows interrupt 27 and the others none.
abbrev machine : Machine
machine = record {
  idreg = λ _. 0;
  sve_present = false;
  features = record {
    nr_lrs = 3;
    nr_aprs = 0;
    pri_res0_mask = 7;
    max_vintid = 2 ^ 16 - 1;
    ext_range = false;
  };
  isr_el1 = λ s n. 0;
  icc_hppir1_el1 = λ s n. if n == 0 then 27 else 1023;
  run_realm = λ g s. record {
    exception = 1;
    regs = (s.recs g).regs;
    el1 = s.cpu.el1;
    elr_el2 = 0;
    spsr_el2 = 0;
    esr_el2 = 0;
    far_el2 = 0;
    hpfar_el2 = 0;
    vectors = 0;
    page = s.page;
  };
  library = record {
    heap_reinit = λ s. 0;
    realm_token_create = λ g s. 0;
    realm_token_sign = λ g s. sign_in_progress;
    cca_token_create = λ g s. (λ _. 0, 100);
  };
  memory = λ _. 0;
  stack = record {
    psci_result = record { forward_psci_call = false; x1 = 0; smc_x0 = 0; smc_rest = λ _. 7 };
    attest_result = record {
      incomplete = false;
      walk_result = record { abort = false; rtt_level = 0 };
      smc_res = λ i. 7;
    };
    config_walk = no_walk;
    host_call_walk = no_walk;
    dev_mem_walk = λ _. no_walk;
    dev_mem = record {
      res = record { abort = false; rtt_level = 0; smc_result = 0 };
      ipa = 0;
      size_del = 0;
      grs = λ _. 0;
      pas = λ _. 0;
      ipas = λ _. 0;
    };
  };
  patience = 10;
}

-- The host emulates, with the value of register 0.
abbrev entry : RecEntry
entry = record {
  flags = 1;
  gprs = λ i. if i == 0 then 0x1ff80 else 0;
  gicv3_hcr = 0;
  gicv3_lrs = λ _. 0;
}

-- A load of a byte to register 3, which extends the sign to 32 bits.
abbrev load_byte : ℕ
load_byte = 36 * 2 ^ 26 + 2 ^ 24 + 2 ^ 21 + 3 * 2 ^ 16

abbrev after_load : Rmm
after_load = record start {
  recs = λ _. record zero_rec { last_run_info = record { esr = load_byte; hpfar = 0; far = 0 } };
}

complete_mmio_emulation_lem_example :
    complete_mmio_emulation 4 entry after_load
    ≡ done true (record after_load {
      recs = update after_load.recs 4 (record (after_load.recs 4) {
        regs = update (after_load.recs 4).regs 3 0xffffff80;
        pc = 4;
      });
    })
unfolding esr_is_write esr_srt esr_sign_extend esr_sas esr_sixty_four
complete_mmio_emulation_lem_example = complete_mmio_emulation_lem 4 entry after_load

-- The virtual timer is asserted, and it was not when the context was saved.
abbrev ticking : Rmm
ticking = record start { cpu = record start.cpu { el1 = record zero_sysregs { cntv_ctl_el0 = 5 } } }

check_pending_timers_lem_example :
    check_pending_timers machine 10 4 ticking ≡ done true (with_masks 4 ticking)
check_pending_timers_lem_example =
    check_pending_timers_lem machine 4 ticking 10 1 (omega arith) (omega arith)
      (record { virtual = λ p. omega arith; physical = λ p. omega arith })

-- The virtual timer is asserted.
masked_interrupts_lem_example : bit_and (masked_interrupts 5 0 0xc00) (2 ^ 18) ≡ 2 ^ 18
unfolding timer_asserted
masked_interrupts_lem_example = masked_interrupts_lem 5 0 0xc00 18 (omega arith)

handler_of_lem_example : handler_of 0xc4000151 ≡ some granule_delegate
unfolding entry_at
handler_of_lem_example = handler_of_lem 0xc4000151

-- A realm with 0x80000000 in every register.
abbrev asking : Rmm
asking = record start { recs = λ _. record zero_rec { regs = λ _. 0x80000000 } }

handle_realm_rsi-version_example :
    handle_realm_rsi board machine 4 zero_exit.exit asking
    ≡ done
        (true, zero_exit.exit)
        (record asking {
          recs =
              update asking.recs 4
                (record (asking.recs 4) { regs = update (λ _. 0x80000000) 0 (2 ^ 64 - 1) });
        })
handle_realm_rsi-version_example =
    handle_realm_rsi-version board machine 4 zero_exit.exit asking refl

attest_token_continue-uninitialised_example :
    attest_token_continue board machine 1 0 4 zero_exit.exit machine.stack.attest_result asking
    ≡ done
        (true, zero_exit.exit)
        (record asking {
          recs = update asking.recs 4 (record (asking.recs 4) {
            regs = λ i. if ltb i 4 then update (λ _. 7) 0 1 i else 0x80000000;
          });
        })
unfolding verify_input_parameters_consistency
attest_token_continue-uninitialised_example =
    attest_token_continue-uninitialised board machine 0 0 4 zero_exit.exit
      machine.stack.attest_result asking refl

-- Slot 1 is extended with 8 bytes, which are those of 1 or those of 2.
abbrev extending : ℕ → Rec
extending v = record zero_rec { regs = λ i. if i == 1 then 1 else if i == 2 then 8 else v }

abbrev long_digests : Rmm
long_digests = record start { rds = λ _. record zero_rd { algorithm = hash_algo_sha512 } }

extend_locked-sha512_example :
    extend_locked board machine.memory (extending 1) 0 long_digests
    ≡ extend_locked board machine.memory (extending 2) 0 long_digests
extend_locked-sha512_example =
    extend_locked-sha512 board machine.memory (extending 1) (extending 2).regs 0 long_digests refl
      refl refl

-- The realm is new.
smc_rec_enter-refused_example :
    smc_rec_enter board machine 10 (λ _. some entry) (λ _. true) 0x80004000 0x80006000 with_context
    ≡ done (entry_refused 2) with_context
unfolding find_granule plat_granule_addr_to_idx
smc_rec_enter-refused_example =
    smc_rec_enter-refused board machine 10 (λ _. some entry) (λ _. true) 0x80004000 0x80006000 4 6 2
      entry with_context with_context-IsClean.quiet refl refl refl refl refl refl refl

abbrev final {ℓ} : {A : Type ℓ} → Outcome A → Rmm
final (done a s) = s
final (fault f) = start

-- The host's SP_EL0 is 5; the realm leaves 99.
abbrev hosting : Rmm
hosting = record start {
  recs = λ _. record zero_rec { num_rec_aux = 2 };
  cpu = record start.cpu { el1 = record zero_sysregs { sp_el0 = 5 } };
}

-- The realm leaves 99 there, until the interrupt.
abbrev using : Machine
using = record machine {
  run_realm = λ g s. record (machine.run_realm g s) { el1 = record s.cpu.el1 { sp_el0 = 99 } };
}

abbrev ran : Outcome (RecExit × TimerExit)
ran = rec_run_loop board using 1 4 zero_exit.exit hosting

abbrev shown_timers : TimerExit
shown_timers = record { cntv_ctl = 0; cntv_cval = 0; cntp_ctl = 0; cntp_cval = 0 }

rec_run_loop-IsRestored_example :
    IsRestored (final ran).cpu.el1 hosting.cpu.el1
    × ((final ran).cpu.icc_sre_el2 ≡ hosting.cpu.icc_sre_el2)
unfolding rec_run_loop enter_realm save_ns_state restore_realm_state configure_realm_stage2
    realm_rounds check_pending_timers activate_events handle_realm_exit leave_realm
    report_timer_state_to_ns save_realm_state restore_ns_state
rec_run_loop-IsRestored_example =
    rec_run_loop-IsRestored board using 4 1 zero_exit.exit hosting (final ran)
      (record zero_exit.exit { exit_reason = 1 }, shown_timers) refl

-- The realm loads from address 0, whose RIPAS is RAM and which is not mapped.
abbrev faulting : Rmm
faulting = record with_context {
  page = λ g i. if g == 2 then 64 else with_context.page g i;
  cpu = record with_context.cpu { esr_el2 = load_byte + 7 };
}

abbrev walked : ℕ → Granule
walked = (final (ipa_is_empty board 0 4 faulting)).granules

faulting-IsProtectedAbort : IsProtectedAbort board 4 faulting walked
unfolding ipa_is_empty fault_ipa fsc_is_external_abort addr_in_rec_par find_granule
    plat_granule_addr_to_idx shift_left granule_lock granule_lock_on_state_match unlocked_invariants
    rtt_walk_lock_unlock s2_sl_addr_to_idx find_lock_next_level entry_is_table s2_addr_to_idx
    addr_to_granule table_entry_to_phys addr_level_mask granule_unlock s2tte_is_destroyed
    s2tte_get_ripas
faulting-IsProtectedAbort = record {
  data_abort = refl;
  not_external = refl;
  not_empty = refl;
  aarch64 = refl;
  protected = refl;
}

handle_realm_exit-emulated_example :
    (handle_realm_exit board machine 4 zero_exit.exit 0 faulting
      ≡ done (false, shown zero_exit.exit faulting) (kept 4 (with_granules faulting walked)))
    × (bit_and (shown zero_exit.exit faulting).esr (2 ^ 24) ≡ 0)
    × ((save_realm_state machine.features 4 >> complete_mmio_emulation 4 entry)
          (kept 4 (with_granules faulting walked))
        ≡ done true (after_emulation machine 4 entry (kept 4 (with_granules faulting walked))))
    × (((after_emulation machine 4 entry (kept 4 (with_granules faulting walked))).recs 4).pc ≡ 4)
handle_realm_exit-emulated_example =
    handle_realm_exit-emulated board machine 4 zero_exit.exit entry faulting walked
      faulting-IsProtectedAbort refl
