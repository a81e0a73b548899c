-- ===== src/Core/Timers.antt =====
-- lib/timers/src/timers.c: the timers of a realm, and the interrupts that they raise.
pub mod Waiting
pub mod Masking
use acai_rmm.Common.{
  ℕ, zero, suc, ◌+◌, ◌-◌, ◌*◌, ◌%◌, ◌^◌, Bool, true, false, not, ◌&&◌, ◌||◌, ◌==◌, ◌!=◌,
  if◌then◌else◌, bit_and, bit_or,
}
use acai_rmm.State.{
  Rmm, Cpu, Rec, Command, done, fault, deadlock, pure, ◌>>=◌, ◌>>◌, read_rec, write_rec,
}
use acai_rmm.Core.Esr.{complement, extract}
use acai_rmm.Core.Machine.{Machine}
use acai_rmm.Core.Registers.{read_cpu, write_cpu}

-- Of lib/arch/include/arch.h.
abbrev pub cnthctl_el2_cntvmask : ℕ
cnthctl_el2_cntvmask = 2 ^ 18

abbrev pub cnthctl_el2_cntpmask : ℕ
cnthctl_el2_cntpmask = 2 ^ 19

abbrev pub el1_virt_timer_ppi : ℕ
el1_virt_timer_ppi = 27

abbrev pub el1_phys_timer_ppi : ℕ
el1_phys_timer_ppi = 30

-- Enabled, with its condition met, and not masked: bits 0 and 2 set, bit 1 clear.
unfoldable pub timer_asserted : ℕ → Bool
timer_asserted reg = bit_and reg (1 + 4 + 2) == 1 + 4

unfoldable pub masked : ℕ → ℕ → ℕ → ℕ
unfolding timer_asserted
masked ctl mask cnthctl =
    if timer_asserted ctl then bit_or cnthctl mask else bit_and cnthctl (complement mask)

unfoldable pub masked_interrupts : ℕ → ℕ → ℕ → ℕ
unfolding masked
masked_interrupts cntv_ctl cntp_ctl cnthctl =
    masked cntp_ctl cnthctl_el2_cntpmask (masked cntv_ctl cnthctl_el2_cntvmask cnthctl)

-- The interrupt of a masked timer is still the highest pending one.
unfoldable pub not_retired : ℕ → ℕ → Bool
not_retired cnthctl hppir =
    (bit_and cnthctl cnthctl_el2_cntvmask != 0 && extract 0 24 hppir == el1_virt_timer_ppi)
    || (bit_and cnthctl cnthctl_el2_cntpmask != 0 && extract 0 24 hppir == el1_phys_timer_ppi)

-- The loop that waits, from the `n`-th reading on; a processor that never retires the interrupt
-- makes it spin for ever.
unfoldable pub wait_retired : Machine → ℕ → ℕ → ℕ → Command (Unit {0})
unfolding not_retired
wait_retired m zero n cnthctl s = fault deadlock
wait_retired m (suc fuel) n cnthctl s = elim (not_retired cnthctl (m.icc_hppir1_el1 s n)) [
  | true ↦ wait_retired m fuel (suc n) cnthctl s
  | false ↦ done tt s
]

abbrev pub differs : Bool → Bool → Bool
differs true b = not b
differs false b = b

unfoldable pub check_pending_timers : Machine → ℕ → ℕ → Command Bool
unfolding masked_interrupts wait_retired timer_asserted
check_pending_timers m fuel g_rec = do
  c ← read_cpu
  let cntv_ctl = c.el1.cntv_ctl_el0
  let cntp_ctl = c.el1.cntp_ctl_el0
  r ← read_rec g_rec
  let cnthctl_old = r.sysregs.cnthctl_el2
  let cnthctl = masked_interrupts cntv_ctl cntp_ctl cnthctl_old
  write_rec g_rec (record r { sysregs = record r.sysregs { cnthctl_el2 = cnthctl } })
  (if cnthctl_old != cnthctl
      then write_cpu (record c { el1 = record c.el1 { cnthctl_el2 = cnthctl } })
      else pure tt)
  wait_retired m fuel 0 cnthctl
  pure (
      differs (timer_asserted cntv_ctl) (timer_asserted r.sysregs.cntv_ctl_el0)
      || differs (timer_asserted cntp_ctl) (timer_asserted r.sysregs.cntp_ctl_el0))

-- The members of `struct rmi_rec_exit` that show the timers.
pub record TimerExit : Type 0 where
  pub cntv_ctl : ℕ
  pub cntv_cval : ℕ
  pub cntp_ctl : ℕ
  pub cntp_cval : ℕ

unfoldable pub report_timer_state_to_ns : Command TimerExit
report_timer_state_to_ns = do
  c ← read_cpu
  pure (record {
    cntv_ctl = c.el1.cntv_ctl_el0;
    cntv_cval = (c.el1.cntv_cval_el0 + 2 ^ 64 - c.el1.cntvoff_el2) % 2 ^ 64;
    cntp_ctl = c.el1.cntp_ctl_el0;
    cntp_cval = (c.el1.cntp_cval_el0 + 2 ^ 64 - c.el1.cntpoff_el2) % 2 ^ 64;
  })
