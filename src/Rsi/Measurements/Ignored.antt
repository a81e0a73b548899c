-- ===== src/Rsi/Measurements/Ignored.antt =====
-- runtime/rsi/realm_attest.c, lib/measurement/src/measurement.c: what an extension of a measurement
-- depends on.
use acai_rmm.Common.{ℕ, ◌≡◌, arith}
use acai_rmm.State.{Platform, Rec, Rmm}
use acai_rmm.Rmi.Realm.Create.{hash_algo_sha512}
use acai_rmm.Rsi.Measurements.{
  extend_locked, measurement_get_size, measurement_extend, measurement_extend_sha512,
}

-- In a realm that measures with SHA-512, an extension does not depend on the value to extend with:
-- with the same slot in register 1 and the same size in register 2, any two contents of the other
-- registers lead to the same measurements and the same answer.
pub extend_locked-sha512 :
    (plat : Platform) (memory : ℕ → ℕ) (r : Rec) (regs : ℕ → ℕ) (g : ℕ) (s : Rmm)
    → (s.rds r.realm_info.g_rd).algorithm ≡ hash_algo_sha512
    → r.regs 1 ≡ regs 1
    → r.regs 2 ≡ regs 2
    → extend_locked plat memory r g s ≡ extend_locked plat memory (record r { regs = regs }) g s
unfolding extend_locked measurement_extend measurement_get_size measurement_extend_sha512
extend_locked-sha512 plat memory r regs g s h slot size = rw (slot, size) (ground (arith, h))
