-- ===== src/Common/Bits/Fields.antt =====
-- `|` and `&` split at any bit: the low parts and the high parts do not meet.
use Prim.Native.Nat.{
  ℕ, zero, suc, ◌+◌, ◌-◌, ◌*◌, ◌/◌, ◌%◌, ◌^◌, ◌≤◌, ◌<◌, bit_and, bit_or, bit_and-bitwise,
  bit_or-bitwise,
}
use mathlib.Core.Path.{◌≡◌, refl, ap}
use native.Mathlib.Omega.{arith}
use native.Mathlib.Nat.{pow-suc, one-le-pow}
use acai_rmm.Common.Bits.Digits.{bit_or_step, bit_and_step}

pub zero-bit_and : (b : ℕ) → bit_and 0 b ≡ 0
zero-bit_and b = bit_and-bitwise 0 b

pub zero-bit_or : (b : ℕ) → bit_or 0 b ≡ b
zero-bit_or b = bit_or-bitwise 0 b

bit_and-zero_below : (n a : ℕ) → a ≤ n → bit_and a 0 ≡ 0
bit_and-zero_below n zero h = refl
bit_and-zero_below zero (suc a) h = absurd (omega arith)
bit_and-zero_below (suc n) (suc a) h =
    omega (arith, bit_and_step (suc a) 0, bit_and-zero_below n (suc a / 2) (omega arith))

pub bit_and-zero : (a : ℕ) → bit_and a 0 ≡ 0
bit_and-zero a = bit_and-zero_below a a (omega arith)

bit_or-zero_below : (n a : ℕ) → a ≤ n → bit_or a 0 ≡ a
bit_or-zero_below n zero h = refl
bit_or-zero_below zero (suc a) h = absurd (omega arith)
bit_or-zero_below (suc n) (suc a) h =
    omega (arith, bit_or_step (suc a) 0, bit_or-zero_below n (suc a / 2) (omega arith))

pub bit_or-zero : (a : ℕ) → bit_or a 0 ≡ a
bit_or-zero a = bit_or-zero_below a a (omega arith)

mul-pow-suc : (q k : ℕ) → q * 2 ^ suc k ≡ 2 * (q * 2 ^ k)
mul-pow-suc q k = omega (arith, ap (λ (t : ℕ). q * t) (pow-suc 2 k))

pub bit_and_split :
    (k a b c d : ℕ)
    → a < 2 ^ k
    → c < 2 ^ k
    → bit_and (b * 2 ^ k + a) (d * 2 ^ k + c) ≡ bit_and b d * 2 ^ k + bit_and a c
bit_and_split zero zero b zero d p q = ground (arith, bit_and-zero 0)
bit_and_split zero zero b (suc c) d p q = absurd (omega arith)
bit_and_split zero (suc a) b c d p q = absurd (omega arith)
bit_and_split (suc k) a b c d p q = ground (
  arith,
  bit_and_step (b * 2 ^ suc k + a) (d * 2 ^ suc k + c),
  bit_and_step a c,
  mul-pow-suc b k,
  mul-pow-suc d k,
  mul-pow-suc (bit_and b d) k,
  pow-suc 2 k,
  bit_and_split k (a / 2) b (c / 2) d (omega (arith, pow-suc 2 k)) (omega (arith, pow-suc 2 k)),
)

pub bit_or_split :
    (k a b c d : ℕ)
    → a < 2 ^ k
    → c < 2 ^ k
    → bit_or (b * 2 ^ k + a) (d * 2 ^ k + c) ≡ bit_or b d * 2 ^ k + bit_or a c
bit_or_split zero zero b zero d p q = ground (arith, bit_or-zero 0)
bit_or_split zero zero b (suc c) d p q = absurd (omega arith)
bit_or_split zero (suc a) b c d p q = absurd (omega arith)
bit_or_split (suc k) a b c d p q = ground (
  arith,
  bit_or_step (b * 2 ^ suc k + a) (d * 2 ^ suc k + c),
  bit_or_step a c,
  mul-pow-suc b k,
  mul-pow-suc d k,
  mul-pow-suc (bit_or b d) k,
  pow-suc 2 k,
  bit_or_split k (a / 2) b (c / 2) d (omega (arith, pow-suc 2 k)) (omega (arith, pow-suc 2 k)),
)

-- Both operations, cut at bit `k`.
pub bit_and_cut :
    (k x y : ℕ)
    → bit_and x y ≡ bit_and (x / 2 ^ k) (y / 2 ^ k) * 2 ^ k + bit_and (x % 2 ^ k) (y % 2 ^ k)
bit_and_cut k x y =
    ground (arith, one-le-pow k 2, bit_and_split k (x % 2 ^ k) (x / 2 ^ k) (y % 2 ^ k) (y / 2 ^ k))

pub bit_or_cut :
    (k x y : ℕ)
    → bit_or x y ≡ bit_or (x / 2 ^ k) (y / 2 ^ k) * 2 ^ k + bit_or (x % 2 ^ k) (y % 2 ^ k)
bit_or_cut k x y =
    ground (arith, one-le-pow k 2, bit_or_split k (x % 2 ^ k) (x / 2 ^ k) (y % 2 ^ k) (y / 2 ^ k))

bit_and_low : (k q r : ℕ) → r < 2 ^ k → bit_and (q * 2 ^ k + r) (2 ^ k - 1) ≡ r
bit_and_low zero q r h = ground (arith, bit_and-zero (q * 2 ^ 0 + r))
bit_and_low (suc k) q r h = ground (
  arith,
  bit_and_step (q * 2 ^ suc k + r) (2 ^ suc k - 1),
  mul-pow-suc q k,
  pow-suc 2 k,
  one-le-pow k 2,
  bit_and_low k q (r / 2) (omega (arith, pow-suc 2 k)),
)

-- A mask of `k` ones keeps the remainder by `2 ^ k`.
pub bit_and_ones : (k x : ℕ) → bit_and x (2 ^ k - 1) ≡ x % 2 ^ k
bit_and_ones k x = ground (arith, one-le-pow k 2, bit_and_low k (x / 2 ^ k) (x % 2 ^ k))

-- A mask of `n` ones shifted by `k` keeps the `n` bits from bit `k` on, in place.
pub bit_and_field : (n k x : ℕ) → bit_and x ((2 ^ n - 1) * 2 ^ k) ≡ (x / 2 ^ k) % 2 ^ n * 2 ^ k
bit_and_field n k x = ground (
  arith,
  one-le-pow k 2,
  bit_and_ones n (x / 2 ^ k),
  bit_and_split k (x % 2 ^ k) (x / 2 ^ k) 0 (2 ^ n - 1),
  bit_and-zero (x % 2 ^ k),
)

-- Fields that do not overlap are joined by a sum.
pub bit_or_sum : (k q r : ℕ) → r < 2 ^ k → bit_or (q * 2 ^ k) r ≡ q * 2 ^ k + r
bit_or_sum k q r h = ground (arith, bit_or-zero q, zero-bit_or r, bit_or_split k 0 q r 0)
