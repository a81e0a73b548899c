-- ===== src/Common/Bits/Single.antt =====
-- One bit of a word: what setting it and clearing it does to each bit.
use Prim.Native.Nat.{ℕ, zero, suc, ◌-◌, ◌/◌, ◌*◌, ◌^◌, ◌<◌, ◌≤◌, bit_and, bit_or}
use mathlib.Core.Path.{◌≡◌}
use native.Mathlib.Omega.{arith}
use native.Mathlib.Nat.{pow-suc, one-le-pow}
use acai_rmm.Common.Tests.{◌==◌, if◌then◌else◌}
use acai_rmm.Common.Bits.Digits.{bit_or_step, bit_and_step}
use acai_rmm.Common.Bits.Laws.{bit_and_complement}
use acai_rmm.Common.Bits.Fields.{bit_and-zero, bit_or-zero, zero-bit_and}

pub bit_or_bit :
    (a b x : ℕ) → bit_and (bit_or x (2 ^ a)) (2 ^ b) ≡ (if a == b then 2 ^ b else bit_and x (2 ^ b))
bit_or_bit zero zero x =
    ground (arith, bit_or_step x 1, bit_and_step (bit_or x 1) 1, bit_and-zero (bit_or x 1 / 2))
bit_or_bit zero (suc b) x = ground (
  arith,
  pow-suc 2 b,
  bit_or_step x 1,
  bit_or-zero (x / 2),
  bit_and_step (bit_or x 1) (2 ^ suc b),
  bit_and_step x (2 ^ suc b),
)
bit_or_bit (suc a) zero x = ground (
  arith,
  pow-suc 2 a,
  bit_or_step x (2 ^ suc a),
  bit_and_step (bit_or x (2 ^ suc a)) 1,
  bit_and_step x 1,
  bit_and-zero (x / 2),
  bit_and-zero (bit_or x (2 ^ suc a) / 2),
)
bit_or_bit (suc a) (suc b) x = ground (
  arith,
  pow-suc 2 a,
  pow-suc 2 b,
  bit_or_step x (2 ^ suc a),
  bit_and_step (bit_or x (2 ^ suc a)) (2 ^ suc b),
  bit_and_step x (2 ^ suc b),
  bit_or_bit a b (x / 2),
)

-- A bit of `x & y`.
pub bit_and_bit :
    (k x y : ℕ)
    → bit_and (bit_and x y) (2 ^ k) ≡ (if bit_and y (2 ^ k) == 0 then 0 else bit_and x (2 ^ k))
bit_and_bit zero x y = ground (
  arith,
  bit_and_step x y,
  bit_and_step (bit_and x y) 1,
  bit_and_step x 1,
  bit_and_step y 1,
  bit_and-zero (x / 2),
  bit_and-zero (y / 2),
  bit_and-zero (bit_and x y / 2),
)
bit_and_bit (suc k) x y = ground (
  arith,
  pow-suc 2 k,
  bit_and_step x y,
  bit_and_step (bit_and x y) (2 ^ suc k),
  bit_and_step x (2 ^ suc k),
  bit_and_step y (2 ^ suc k),
  bit_and_bit k (x / 2) (y / 2),
)

pub bit_or-bounds : (k x y : ℕ) → x < 2 ^ k → y < 2 ^ k → bit_or x y < 2 ^ k
bit_or-bounds zero x y p q = ground (arith, bit_or-zero 0)
bit_or-bounds (suc k) x y p q =
    ground (arith, pow-suc 2 k, bit_or_step x y, bit_or-bounds k (x / 2) (y / 2))

pub bit_and-bounds : (k x y : ℕ) → x < 2 ^ k → bit_and x y < 2 ^ k
bit_and-bounds zero x y p = ground (arith, zero-bit_and y)
bit_and-bounds (suc k) x y p =
    ground (arith, pow-suc 2 k, bit_and_step x y, bit_and-bounds k (x / 2) (y / 2))

pow_lt : (a k : ℕ) → a < k → 2 * 2 ^ a ≤ 2 ^ k
pow_lt a zero h = absurd (omega arith)
pow_lt zero (suc k) h = omega (arith, pow-suc 2 k, one-le-pow k 2)
pow_lt (suc a) (suc k) h = omega (arith, pow-suc 2 k, pow-suc 2 a, pow_lt a k)

clear_low : (k x : ℕ) → x < 2 ^ suc k → bit_and x (2 ^ suc k - 1 - 1) ≡ x / 2 * 2
clear_low k x w = ground (
  arith,
  one-le-pow k 2,
  pow-suc 2 k,
  bit_and_complement (suc k) x 1,
  bit_and_step x 1,
  bit_and-zero (x / 2),
)

pub bit_and_clear_bit :
    (k a b x : ℕ)
    → a < k
    → x < 2 ^ k
    → bit_and (bit_and x (2 ^ k - 1 - 2 ^ a)) (2 ^ b) ≡ (if a == b then 0 else bit_and x (2 ^ b))
bit_and_clear_bit zero a b x h w = absurd (omega arith)
bit_and_clear_bit (suc k) zero zero x h w = ground (
  arith,
  pow-suc 2 k,
  one-le-pow k 2,
  bit_and_step x (2 ^ suc k - 1 - 1),
  bit_and_step (bit_and x (2 ^ suc k - 1 - 1)) 1,
  bit_and-zero (bit_and x (2 ^ suc k - 1 - 1) / 2),
)
bit_and_clear_bit (suc k) zero (suc b) x h w =
    rw (clear_low k x w) (
      ground (arith, pow-suc 2 b, bit_and_step (x / 2 * 2) (2 ^ suc b), bit_and_step x (2 ^ suc b)))
bit_and_clear_bit (suc k) (suc a) zero x h w = ground (
  arith,
  pow-suc 2 k,
  pow-suc 2 a,
  one-le-pow k 2,
  one-le-pow a 2,
  pow_lt a k (omega arith),
  bit_and_step x (2 ^ suc k - 1 - 2 ^ suc a),
  bit_and_step (bit_and x (2 ^ suc k - 1 - 2 ^ suc a)) 1,
  bit_and_step x 1,
  bit_and-zero (x / 2),
  bit_and-zero (bit_and x (2 ^ suc k - 1 - 2 ^ suc a) / 2),
)
bit_and_clear_bit (suc k) (suc a) (suc b) x h w = ground (
  arith,
  pow-suc 2 k,
  pow-suc 2 a,
  pow-suc 2 b,
  one-le-pow a 2,
  pow_lt a k (omega arith),
  bit_and_step x (2 ^ suc k - 1 - 2 ^ suc a),
  bit_and_step (bit_and x (2 ^ suc k - 1 - 2 ^ suc a)) (2 ^ suc b),
  bit_and_step x (2 ^ suc b),
  bit_and_clear_bit k a b (x / 2),
)
