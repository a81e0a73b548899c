-- ===== src/Rmi/Realm/Roots.antt =====
-- runtime/rmi/realm.c: the root tables that a realm is given are those that a walk starts from.
use acai_rmm.Common.{ℕ, zero, suc, ◌+◌, ◌-◌, ◌*◌, ◌^◌, ◌≤◌, ◌≡◌, true, arith}
use acai_rmm.State.{Platform}
use acai_rmm.Rmi.Realm.Params.{validate_ipa_bits_and_sl, s2_num_root_rtts}

-- What the validation of a starting level comes to.
valid_bounds :
    (plat : Platform) (ipa_bits sl : ℕ)
    → validate_ipa_bits_and_sl plat ipa_bits sl ≡ true
    → (32 ≤ ipa_bits)
      × (ipa_bits ≤ 48)
      × (sl ≤ 3)
      × ((3 - sl) * 9 + 13 ≤ ipa_bits)
      × (ipa_bits ≤ (3 - sl) * 9 + 25)
unfolding validate_ipa_bits_and_sl
valid_bounds plat ipa_bits sl h = ground arith

few : (d : ℕ) → d ≤ 4 → (1 ≤ 2 ^ d) × (2 ^ d ≤ 16)
few zero h = omega arith
few (suc zero) h = omega arith
few (suc (suc zero)) h = omega arith
few (suc (suc (suc zero))) h = omega arith
few (suc (suc (suc (suc zero)))) h = omega arith
few (suc (suc (suc (suc (suc d))))) h = absurd (omega arith)

-- A realm whose parameters pass the check has between 1 and 16 root tables.
pub s2_num_root_rtts-bounds :
    (plat : Platform) (ipa_bits sl : ℕ)
    → validate_ipa_bits_and_sl plat ipa_bits sl ≡ true
    → (1 ≤ s2_num_root_rtts ipa_bits sl) × (s2_num_root_rtts ipa_bits sl ≤ 16)
unfolding s2_num_root_rtts
s2_num_root_rtts-bounds plat ipa_bits sl h = ground (
  arith,
  valid_bounds plat ipa_bits sl h,
  few (ipa_bits - ((3 - sl) * 9 + 21)) (omega (arith, valid_bounds plat ipa_bits sl h)),
)
