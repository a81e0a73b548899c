-- ===== src/Core/Timers/Masking.antt =====
-- lib/timers/src/timers.c: which interrupts of the timers are masked while a realm runs.
use acai_rmm.Common.{
  ℕ, ◌-◌, ◌^◌, ◌<◌, ◌≡◌, refl, arith, bit_and, ◌==◌, if◌then◌else◌, bit_or_bit, bit_and_clear_bit,
  bit_or-bounds, bit_and-bounds, Bool-cases, inl, inr,
}
use acai_rmm.Core.Timers.{timer_asserted, masked, masked_interrupts}

masked-bit :
    (ctl a b x : ℕ)
    → a < 64
    → x < 2 ^ 64
    → bit_and (masked ctl (2 ^ a) x) (2 ^ b)
      ≡ (if a == b then if timer_asserted ctl then 2 ^ b else 0 else bit_and x (2 ^ b))
unfolding masked
masked-bit ctl a b x lt h = elim (Bool-cases (timer_asserted ctl)) [
  | inl e ↦ rw (e, bit_or_bit a b x) refl
  | inr e ↦ rw (e, bit_and_clear_bit 64 a b x lt h) refl
]

masked-bounds : (ctl m x : ℕ) → m < 2 ^ 64 → x < 2 ^ 64 → masked ctl m x < 2 ^ 64
unfolding masked
masked-bounds ctl m x p h =
    ground (arith, bit_or-bounds 64 x m h p, bit_and-bounds 64 x (2 ^ 64 - 1 - m) h)

-- The interrupt of the virtual timer is masked exactly when that timer is asserted, that of the
-- physical timer exactly when that one is, and every other bit of CNTHCTL_EL2 is kept.
pub masked_interrupts_lem :
    (cntv_ctl cntp_ctl cnthctl b : ℕ)
    → cnthctl < 2 ^ 64
    → bit_and (masked_interrupts cntv_ctl cntp_ctl cnthctl) (2 ^ b) ≡ (
        if 18 == b
        then if timer_asserted cntv_ctl then 2 ^ b else 0
        else if 19 == b
        then if timer_asserted cntp_ctl then 2 ^ b else 0
        else bit_and cnthctl (2 ^ b))
unfolding masked_interrupts
masked_interrupts_lem cntv_ctl cntp_ctl cnthctl b h = ground (
  arith,
  masked-bit cntp_ctl 19 b (masked cntv_ctl (2 ^ 18) cnthctl) (omega arith)
      (masked-bounds cntv_ctl (2 ^ 18) cnthctl (omega arith) h),
  masked-bit cntv_ctl 18 b cnthctl (omega arith) h,
)
