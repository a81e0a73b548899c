-- ===== src/Common/Bits/Digits.antt =====
-- `|` and `&` of two numbers from those of their halves.
use Prim.Native.Nat.{
  ℕ, zero, suc, ◌+◌, ◌*◌, ◌/◌, ◌%◌, ◌≤◌, min, max, bit_and, bit_or, digits, bitwise,
  bit_and-bitwise, bit_or-bitwise,
}
use mathlib.Core.Path.{◌≡◌, refl, ap, ◌∙◌}
use mathlib.Core.Logic.{inl, inr}
use native.Mathlib.Omega.{arith}
use acai_rmm.Common.Tests.{leb, Bool-cases}

module _ (last : ℕ → ℕ) (bit : ℕ → ℕ → ℕ) where
  -- One round more than the number of digits changes nothing.
  spare_round : (n a b : ℕ) → a ≤ n → digits last bit (suc n) a b ≡ digits last bit n a b
  spare_round zero zero b h = refl
  spare_round (suc n) zero b h = refl
  spare_round zero (suc a) b h = absurd (omega arith)
  spare_round (suc n) (suc a) b h = rw (spare_round n (suc a / 2) (b / 2) (omega arith))

  at_rounds : (n m a b : ℕ) → n ≡ m → digits last bit n a b ≡ digits last bit m a b
  at_rounds n m a b h = ap (λ (k : ℕ). digits last bit k a b) h

  enough_rounds : (n a b : ℕ) → a ≤ n → digits last bit n a b ≡ bitwise last bit a b
  enough_rounds zero a b h = at_rounds zero a a b (omega arith)
  enough_rounds (suc n) a b h = elim (Bool-cases (leb a n)) [
    | inl e ↦ spare_round n a b (ground arith) ∙ enough_rounds n a b (ground arith)
    | inr e ↦ at_rounds (suc n) a a b (ground arith)
  ]

  halves :
      ((b : ℕ) → last b ≡ last (b / 2) * 2 + bit 0 (b % 2))
      → (a b : ℕ)
      → bitwise last bit a b ≡ bitwise last bit (a / 2) (b / 2) * 2 + bit (a % 2) (b % 2)
  halves base zero b = base b
  halves base (suc a) b =
      ap (λ (high : ℕ). high * 2 + bit (suc a % 2) (b % 2))
        (enough_rounds a (suc a / 2) (b / 2) (omega arith))

pub bit_or_step : (a b : ℕ) → bit_or a b ≡ bit_or (a / 2) (b / 2) * 2 + max (a % 2) (b % 2)
bit_or_step a b = simp bit_or-bitwise (halves (λ y. y) max (λ y. omega arith) a b)

pub bit_and_step : (a b : ℕ) → bit_and a b ≡ bit_and (a / 2) (b / 2) * 2 + min (a % 2) (b % 2)
bit_and_step a b = simp bit_and-bitwise (halves (λ y. 0) min (λ y. omega arith) a b)
