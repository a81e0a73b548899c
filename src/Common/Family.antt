-- ===== src/Common/Family.antt =====
-- Arrays as functions from the index, and the write at one index.
use Prim.Native.Nat.{ℕ}
use mathlib.Core.Path.{◌≡◌, fun_ext, ap}
use mathlib.Core.Logic.{◌≢◌, inl, inr}
use native.Mathlib.Omega.{arith}
use acai_rmm.Common.Tests.{◌==◌, if◌then◌else◌, Bool-cases, ==_iff}

module _ {ℓ} {A : Type ℓ} where
  abbrev pub update : (ℕ → A) → ℕ → A → ℕ → A
  update f i a j = if i == j then a else f j

  pub update_self : (f : ℕ → A) (i : ℕ) (a : A) → update f i a i ≡ a
  update_self f i a = ground arith

  pub update_ne : (f : ℕ → A) (i : ℕ) (a : A) (j : ℕ) → i ≢ j → update f i a j ≡ f j
  update_ne f i a j h = ground arith

  pub update_comm :
      (f : ℕ → A) (i j : ℕ) (a b : A)
      → i ≢ j
      → update (update f i a) j b ≡ update (update f j b) i a
  update_comm f i j a b h = fun_ext λ k. ground arith

  pub update-update : (f : ℕ → A) (i : ℕ) (a b : A) → update (update f i a) i b ≡ update f i b
  update-update f i a b = fun_ext λ j. ground arith

  -- Writing back what stands there changes nothing.
  pub update_same : (f : ℕ → A) (i : ℕ) (a : A) → f i ≡ a → update f i a ≡ f
  update_same f i a h = fun_ext λ j. elim (Bool-cases (i == j)) [
    | inl e ↦ ground (arith, ap f ((==_iff i j).0 e))
    | inr e ↦ ground arith
  ]

  pub update-update_twice :
      (f : ℕ → A) (i : ℕ) (a b c : A) → update (update (update f i a) i b) i c ≡ update f i c
  update-update_twice f i a b c = fun_ext λ j. ground arith
