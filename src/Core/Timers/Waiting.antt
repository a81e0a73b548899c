-- ===== src/Core/Timers/Waiting.antt =====
-- lib/timers/src/timers.c: a round of the timers, from the registers of the realm to the end of the
-- loop that waits for the interrupt of a masked timer.
use acai_rmm.Common.{
  ℕ, zero, suc, ◌+◌, ◌%◌, ◌^◌, ◌<◌, ◌≡◌, ◌≢◌, refl, false, arith, ap, Bool-cases, inl, inr, ◌==◌,
  ◌!=◌, ◌||◌, bit_and_ones, if◌then◌else◌, update,
}
use acai_rmm.State.{Rmm, done, and_then, pure}
use acai_rmm.Core.Machine.{Machine}
use acai_rmm.Core.Timers.{
  differs, timer_asserted, masked_interrupts, not_retired, wait_retired, check_pending_timers,
}
use acai_rmm.Core.Timers.Masking.{masked_interrupts_lem}

-- When one of the readings that the fuel allows shows the interrupt retired, the loop returns.
returns :
    (m : Machine) (fuel n k cnthctl : ℕ) (s : Rmm)
    → k < fuel
    → not_retired cnthctl (m.icc_hppir1_el1 s (n + k)) ≡ false
    → wait_retired m fuel n cnthctl s ≡ done tt s
unfolding wait_retired
returns m zero n k cnthctl s lt h = absurd (omega arith)
returns m (suc fuel) n zero cnthctl s lt h = ground (arith, h)
returns m (suc fuel) n (suc k) cnthctl s lt h = ground (arith, returns m fuel (suc n) k cnthctl s)

-- A timer raises its interrupt (1) or not (0): it is enabled and its condition is met (bits 0 and 2 of
-- its control register), and it is not masked (bit 1).
abbrev pub raises : ℕ → ℕ
raises ctl = if ctl % 8 == 5 then 1 else 0

asserted-raises : (ctl : ℕ) → timer_asserted ctl ≡ (ctl % 8 == 5)
unfolding timer_asserted
asserted-raises ctl = rw (bit_and_ones 3 ctl) refl

-- The state after the masks are computed.
abbrev pub with_masks : ℕ → Rmm → Rmm
with_masks g s =
    let r = s.recs g in
    let old = r.sysregs.cnthctl_el2 in
    let new = masked_interrupts s.cpu.el1.cntv_ctl_el0 s.cpu.el1.cntp_ctl_el0 old in
    record s {
      recs = update s.recs g (record r { sysregs = record r.sysregs { cnthctl_el2 = new } });
      cpu =
          if old != new
          then record s.cpu { el1 = record s.cpu.el1 { cnthctl_el2 = new } }
          else s.cpu;
    }

-- Neither timer that raises its interrupt has it as the highest pending one.
pub record IsRetired (s : Rmm) (hppir : ℕ) : Type 0 where
  pub virtual : s.cpu.el1.cntv_ctl_el0 % 8 ≡ 5 → hppir % 2 ^ 24 ≢ 27
  pub physical : s.cpu.el1.cntp_ctl_el0 % 8 ≡ 5 → hppir % 2 ^ 24 ≢ 30

module _ (m : Machine) (g : ℕ) (s : Rmm) where
  retired :
      (hppir : ℕ)
      → (s.recs g).sysregs.cnthctl_el2 < 2 ^ 64
      → IsRetired s hppir
      → not_retired
          (masked_interrupts s.cpu.el1.cntv_ctl_el0 s.cpu.el1.cntp_ctl_el0
            (s.recs g).sysregs.cnthctl_el2)
          hppir
        ≡ false
  unfolding not_retired
  retired hppir w is =
      let cv = s.cpu.el1.cntv_ctl_el0 in
      let cp = s.cpu.el1.cntp_ctl_el0 in
      let old = (s.recs g).sysregs.cnthctl_el2 in
      rw
        (
          masked_interrupts_lem cv cp old 18 w,
          masked_interrupts_lem cv cp old 19 w,
          asserted-raises cv,
          asserted-raises cp,
          bit_and_ones 24 hppir,
        )
        (ground (arith, is.virtual, is.physical))

  masks_written :
      (fuel : ℕ)
      → check_pending_timers m fuel g s
        ≡ and_then
            (wait_retired m fuel 0
              (masked_interrupts s.cpu.el1.cntv_ctl_el0 s.cpu.el1.cntp_ctl_el0
                (s.recs g).sysregs.cnthctl_el2)
              (with_masks g s))
            (λ u. pure (
              differs
                (timer_asserted s.cpu.el1.cntv_ctl_el0)
                (timer_asserted (s.recs g).sysregs.cntv_ctl_el0)
              || differs
                  (timer_asserted s.cpu.el1.cntp_ctl_el0)
                  (timer_asserted (s.recs g).sysregs.cntp_ctl_el0)))
  masks_written fuel =
      let old = (s.recs g).sysregs.cnthctl_el2 in
      let new = masked_interrupts s.cpu.el1.cntv_ctl_el0 s.cpu.el1.cntp_ctl_el0 old in
      elim (Bool-cases (old != new)) [
        | inl b ↦ unfold check_pending_timers in rw b refl
        | inr b ↦ unfold check_pending_timers in rw b refl
      ]

  -- Before a round of a realm, when some reading of the highest pending interrupt that the fuel
  -- allows shows no interrupt of a timer of the realm that raises one (27 for the virtual timer, 30
  -- for the physical one): the check returns, with the masks stored in the context and, where they
  -- changed, in CNTHCTL_EL2, and it says whether one of the timers raises its interrupt and did not
  -- when the context was last saved, or the other way round.
  pub check_pending_timers_lem :
      (fuel k : ℕ)
      → (s.recs g).sysregs.cnthctl_el2 < 2 ^ 64
      → k < fuel
      → IsRetired s (m.icc_hppir1_el1 (with_masks g s) k)
      → check_pending_timers m fuel g s
        ≡ done
            (raises s.cpu.el1.cntv_ctl_el0 != raises (s.recs g).sysregs.cntv_ctl_el0
              || raises s.cpu.el1.cntp_ctl_el0 != raises (s.recs g).sysregs.cntp_ctl_el0)
            (with_masks g s)
  check_pending_timers_lem fuel k w lt is =
      let new =
        masked_interrupts s.cpu.el1.cntv_ctl_el0 s.cpu.el1.cntp_ctl_el0
          (s.recs g).sysregs.cnthctl_el2 in
      let from_zero : 0 + k ≡ k = omega arith in
      let reading = m.icc_hppir1_el1 (with_masks g s) k in
      rw
        (
          masks_written fuel,
          returns m fuel 0 k new (with_masks g s) lt (rw from_zero (retired reading w is)),
          asserted-raises s.cpu.el1.cntv_ctl_el0,
          asserted-raises s.cpu.el1.cntp_ctl_el0,
          asserted-raises (s.recs g).sysregs.cntv_ctl_el0,
          asserted-raises (s.recs g).sysregs.cntp_ctl_el0,
        )
        (ap (λ b. done b (with_masks g s)) (ground arith))
