-- ===== src/Rmi/Run/Completion/Protected.antt =====
-- runtime/core/exit.c, runtime/rmi/run.c: an abort on a protected address that the host emulates.
use acai_rmm.Common.{
  ℕ, ◌+◌, ◌%◌, ◌^◌, ◌≡◌, refl, arith, bit_and, true, false, ◌==◌, bit_and_bit, update,
}
use acai_rmm.State.{Platform, Granule, Rmm, done, ◌>>◌}
use acai_rmm.Gic.{GicVirtFeature, gic_save_state}
use acai_rmm.Core.Run.Switch.{save_sysreg_state, save_realm_state}
use acai_rmm.Granule.Quiet.{with_granules}
use acai_rmm.Rsi.Interface.{RecExit, addr_in_rec_par}
use acai_rmm.Core.Esr.{
  fault_ipa, esr_el2_ec_mask, esr_el2_ec_data_abort, esr_el2_abort_fsc_mask, esr_el2_abort_isv_bit,
  esr_nonemulated_abort_mask,
}
use acai_rmm.Core.Inject.{spsr_el2_nrw}
use acai_rmm.Core.Machine.{Machine}
use acai_rmm.Core.Exit.Aborts.{
  fsc_is_external_abort, ipa_is_empty, handle_data_abort, handle_sync_external_abort,
  fixup_aarch32_data_abort, access_in_rec_par,
}
use acai_rmm.Core.Exit.Sync.{
  arm_exception_sync_lel, handle_exception_sync, handle_realm_exit, keep_run_info,
}
use acai_rmm.Rmi.Run.Completion.{RecEntry, rec_entry_flag_emul_mmio, complete_mmio_emulation}
use acai_rmm.Rmi.Run.Completion.Emulated.{complete_mmio_emulation_lem, completed, can_be_emulated}

-- A data abort of a realm in AArch64 at a protected address, not an external one, with a valid
-- syndrome, where the RIPAS is not EMPTY; the walk that finds it leaves the granules `gr`.
pub record IsProtectedAbort (plat : Platform) (g : ℕ) (s : Rmm) (gr : ℕ → Granule) : Type 0 where
  pub data_abort : can_be_emulated s.cpu.esr_el2 ≡ true
  pub not_external : fsc_is_external_abort (bit_and s.cpu.esr_el2 esr_el2_abort_fsc_mask) ≡ false
  pub not_empty :
      ipa_is_empty plat (fault_ipa s.cpu.hpfar_el2) g s ≡ done false (with_granules s gr)
  pub aarch64 : bit_and s.cpu.spsr_el2 spsr_el2_nrw ≡ 0
  pub protected : addr_in_rec_par (s.recs g) (fault_ipa s.cpu.hpfar_el2) ≡ true

-- What the host is shown, and what the context keeps.
abbrev pub shown : RecExit → Rmm → RecExit
shown e s = record e {
  exit_reason = 0;
  esr = bit_and s.cpu.esr_el2 esr_nonemulated_abort_mask;
  far = 0;
  hpfar = s.cpu.hpfar_el2;
  gprs = update e.gprs 0 0;
}

abbrev pub kept : ℕ → Rmm → Rmm
kept g s = record s {
  recs = update s.recs g (record (s.recs g) {
    last_run_info = record { esr = s.cpu.esr_el2; hpfar = s.cpu.hpfar_el2; far = s.cpu.far_el2 };
  });
}

ec_of : (esr : ℕ) → can_be_emulated esr ≡ true → bit_and esr esr_el2_ec_mask ≡ esr_el2_ec_data_abort
ec_of esr h = ground (arith, h)

handle_realm_exit-protected :
    (plat : Platform) (m : Machine) (g : ℕ) (e : RecExit) (s : Rmm) (gr : ℕ → Granule)
    → IsProtectedAbort plat g s gr
    → handle_realm_exit plat m g e arm_exception_sync_lel s
      ≡ done (false, shown e s) (kept g (with_granules s gr))
unfolding handle_realm_exit handle_exception_sync handle_data_abort handle_sync_external_abort
    fixup_aarch32_data_abort access_in_rec_par keep_run_info
handle_realm_exit-protected plat m g e s gr p =
    rw (ec_of s.cpu.esr_el2 p.data_abort, p.not_external, p.not_empty, p.aarch64, p.protected) refl

-- The state after the registers of the realm are saved in the context.
abbrev pub parked : GicVirtFeature → ℕ → Rmm → Rmm
parked f g s =
    let r = s.recs g in
    let gic = gic_save_state f r.sysregs.gicstate s.cpu.el1.gicstate in
    record s {
      recs = update s.recs g (record r {
        sysregs = record (save_sysreg_state s.cpu.el1 r.sysregs) { gicstate = gic.0 };
        pc = s.cpu.elr_el2;
        pstate = s.cpu.spsr_el2;
      });
      cpu = record s.cpu { el1 = record s.cpu.el1 { gicstate = gic.1 } };
    }

save_realm_state-parked :
    (f : GicVirtFeature) (g : ℕ) (s : Rmm) → save_realm_state f g s ≡ done tt (parked f g s)
unfolding save_realm_state
save_realm_state-parked f g s = refl

-- The state after the exit, the saving of the registers, and the completion that the host asked for.
abbrev pub after_emulation : Machine → ℕ → RecEntry → Rmm → Rmm
after_emulation m g entry s =
    let t = parked m.features g s in
    record t { recs = update t.recs g (completed (t.recs g) entry) }

-- A data abort of a realm in AArch64 at a protected address whose RIPAS is not EMPTY, not an external
-- one and with a valid syndrome: the host is shown the syndrome with the bit ISV cleared, FAR 0, the
-- fault address in HPFAR, and 0 in register 0. When it asks for an emulation all the same, after the
-- registers of the realm are saved, the monitor does not refuse: the program counter of the context
-- is one instruction after the one that faulted, and the context is otherwise what the completion of
-- an abort on an unprotected address makes of it, with the value of the host for a load.
pub handle_realm_exit-emulated :
    (plat : Platform) (m : Machine) (g : ℕ) (e : RecExit) (entry : RecEntry) (s : Rmm)
    (gr : ℕ → Granule)
    → IsProtectedAbort plat g s gr
    → (bit_and entry.flags rec_entry_flag_emul_mmio == 0) ≡ false
    → (handle_realm_exit plat m g e arm_exception_sync_lel s
        ≡ done (false, shown e s) (kept g (with_granules s gr)))
      × (bit_and (shown e s).esr esr_el2_abort_isv_bit ≡ 0)
      × ((save_realm_state m.features g >> complete_mmio_emulation g entry)
            (kept g (with_granules s gr))
          ≡ done true (after_emulation m g entry (kept g (with_granules s gr))))
      × (((after_emulation m g entry (kept g (with_granules s gr))).recs g).pc
          ≡ (s.cpu.elr_el2 + 4) % 2 ^ 64)
handle_realm_exit-emulated plat m g e entry s gr p flag =
    let k = kept g (with_granules s gr) in
    (
      handle_realm_exit-protected plat m g e s gr p,
      bit_and_bit 24 s.cpu.esr_el2 esr_nonemulated_abort_mask,
      rw
          (
            save_realm_state-parked m.features g k,
            complete_mmio_emulation_lem g entry (parked m.features g k),
            flag,
          )
          (ground (arith, p.data_abort)),
      ground arith,
    )
