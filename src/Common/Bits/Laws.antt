-- ===== src/Common/Bits/Laws.antt =====
-- Laws of `&` and `|` at every width: a mask and its complement, and distributivity.
use Prim.Native.Nat.{ℕ, zero, suc, ◌+◌, ◌-◌, ◌/◌, ◌^◌, ◌<◌, bit_and, bit_or}
use mathlib.Core.Path.{◌≡◌}
use native.Mathlib.Omega.{arith}
use native.Mathlib.Nat.{pow-suc}
use acai_rmm.Common.Bits.Digits.{bit_or_step, bit_and_step}
use acai_rmm.Common.Bits.Fields.{zero-bit_and, bit_or-zero}

-- A mask of `k` bits and its complement share a word out between them.
pub bit_and_complement :
    (k x m : ℕ) → x < 2 ^ k → m < 2 ^ k → bit_and x m + bit_and x (2 ^ k - 1 - m) ≡ x
bit_and_complement zero zero zero h p = omega arith
bit_and_complement zero (suc x) m h p = absurd (omega arith)
bit_and_complement zero zero (suc m) h p = absurd (omega arith)
bit_and_complement (suc k) x m h p = ground (
  arith,
  bit_and_step x m,
  bit_and_step x (2 ^ suc k - 1 - m),
  pow-suc 2 k,
  bit_and_complement k (x / 2) (m / 2) (omega (arith, pow-suc 2 k)) (omega (arith, pow-suc 2 k)),
)

-- A mask goes over both sides of `|`.
pub bit_and-bit_or :
    (k x y m : ℕ)
    → x < 2 ^ k
    → y < 2 ^ k
    → bit_and (bit_or x y) m ≡ bit_or (bit_and x m) (bit_and y m)
bit_and-bit_or zero zero zero m h p = ground (arith, zero-bit_and m, bit_or-zero 0)
bit_and-bit_or zero (suc x) y m h p = absurd (omega arith)
bit_and-bit_or zero zero (suc y) m h p = absurd (omega arith)
bit_and-bit_or (suc k) x y m h p = ground (
  arith,
  bit_or_step x y,
  bit_and_step x m,
  bit_and_step y m,
  bit_and_step (bit_or x y) m,
  bit_or_step (bit_and x m) (bit_and y m),
  bit_and-bit_or k (x / 2) (y / 2) (m / 2) (omega (arith, pow-suc 2 k))
      (omega (arith, pow-suc 2 k)),
)
