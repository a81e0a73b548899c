-- ===== src/Rsi/Measurements.antt =====
-- runtime/rsi/realm_attest.c and lib/measurement: a realm reads and extends its measurements.
pub mod Ignored
use acai_rmm.Common.{
  ℕ, zero, suc, ◌+◌, ◌-◌, ◌*◌, ◌/◌, ◌%◌, ◌^◌, Bool, false, ◌||◌, ◌&&◌, ltb, leb, ◌==◌,
  if◌then◌else◌, update, List, [], ◌∷◌, ◌++◌, Option, some, none,
}
use acai_rmm.State.{
  Platform, Rd, Rec, Rmm, rd, Command, done, pure, ◌>>=◌, ◌>>◌, assert, read_rd, write_rd, read_rec,
  write_rec, granule_size,
}
use acai_rmm.Granule.Ops.{granule_lock, granule_unlock}
use acai_rmm.Granule.Find.{granule_addr, find_lock_granule}
use acai_rmm.Rmi.Realm.Create.{hash_algo_sha256, hash_algo_sha512}
use acai_rmm.Rmi.Rtt.Measure.{rim_measurement_slot}
use acai_rmm.Rsi.Interface.{rsi_success, rsi_error_input}

abbrev pub measurement_slot_nr : ℕ
measurement_slot_nr = 5

abbrev pub max_measurement_size : ℕ
max_measurement_size = 64

abbrev pub max_extended_size : ℕ
max_extended_size = 64

unfoldable pub measurement_get_size : ℕ → Command ℕ
measurement_get_size algorithm =
    if algorithm == hash_algo_sha256
    then pure 32
    else if algorithm == hash_algo_sha512
    then pure 64
    else assert false >> pure 0

-- The 64 bytes that are copied to the registers 1 to 8, as words, the first byte lowest; the bytes
-- past the size of the digest are 0.
unfoldable pub measurement_regs : ℕ → ℕ → (ℕ → ℕ) → ℕ → ℕ
measurement_regs size digest regs i =
    if leb 1 i && leb i 8
    then if ltb (8 * (i - 1)) size then digest / 2 ^ (64 * (i - 1)) % 2 ^ 64 else 0
    else regs i

unfoldable pub handle_rsi_read_measurement : ℕ → Command ℕ
unfolding measurement_get_size measurement_regs
handle_rsi_read_measurement g_rec = do
  r ← read_rec g_rec
  let idx = r.regs 1
  if leb measurement_slot_nr idx then pure rsi_error_input else (do
    granule_lock r.realm_info.g_rd rd
    d ← read_rd r.realm_info.g_rd
    measurement_size ← measurement_get_size d.algorithm
    write_rec g_rec
        (record r { regs = measurement_regs measurement_size (d.measurement idx) r.regs })
    granule_unlock r.realm_info.g_rd
    pure rsi_success)

-- `n` bytes from byte `i` on, of a number, of the registers from `base` on, and of the memory.
unfoldable pub digest_bytes : ℕ → ℕ → ℕ → List ℕ
digest_bytes zero i digest = []
digest_bytes (suc n) i digest = digest / 2 ^ (8 * i) % 2 ^ 8 ∷ digest_bytes n (suc i) digest

unfoldable pub reg_bytes : ℕ → ℕ → ℕ → (ℕ → ℕ) → List ℕ
reg_bytes zero i base regs = []
reg_bytes (suc n) i base regs =
    regs (base + i / 8) / 2 ^ (8 * (i % 8)) % 2 ^ 8 ∷ reg_bytes n (suc i) base regs

unfoldable pub memory_bytes : ℕ → ℕ → (ℕ → ℕ) → List ℕ
memory_bytes zero addr memory = []
memory_bytes (suc n) addr memory = memory addr ∷ memory_bytes n (suc addr) memory

module _ (plat : Platform) (memory : ℕ → ℕ) where
  unfoldable pub measurement_extend_sha256 : ℕ → ℕ → (ℕ → ℕ) → ℕ → ℕ
  unfolding digest_bytes reg_bytes
  measurement_extend_sha256 current size regs extend_size =
      plat.hash hash_algo_sha256 (digest_bytes size 0 current ++ reg_bytes extend_size 0 3 regs)

  -- The second update is given the size as the address of the bytes; `memory` is what is found there.
  unfoldable pub measurement_extend_sha512 : ℕ → ℕ → (ℕ → ℕ) → ℕ → ℕ
  unfolding digest_bytes memory_bytes
  measurement_extend_sha512 current size regs extend_size =
      plat.hash hash_algo_sha512
        (digest_bytes size 0 current ++ memory_bytes extend_size extend_size memory)

  -- The value to extend with is in the registers from 3 on.
  unfoldable pub measurement_extend : ℕ → ℕ → (ℕ → ℕ) → ℕ → Command ℕ
  unfolding measurement_get_size measurement_extend_sha256 measurement_extend_sha512
  measurement_extend algorithm current regs extend_size = do
    size ← measurement_get_size algorithm
    assert (leb extend_size granule_size)
    if algorithm == hash_algo_sha256
        then pure (measurement_extend_sha256 current size regs extend_size)
        else if algorithm == hash_algo_sha512
        then pure (measurement_extend_sha512 current size regs extend_size)
        else assert false >> pure current

  unfoldable pub extend_locked : Rec → ℕ → Command ℕ
  unfolding measurement_extend
  extend_locked r g_rd = do
    let index = r.regs 1
    let size = r.regs 2
    if index == rim_measurement_slot || leb measurement_slot_nr index || ltb max_extended_size size
        then pure rsi_error_input
        else (do
          d ← read_rd r.realm_info.g_rd
          extended ← measurement_extend d.algorithm (d.measurement index) r.regs size
          write_rd r.realm_info.g_rd
              (record d { measurement = update d.measurement index extended })
          pure rsi_success)

  unfoldable pub extend_found : Rec → Option ℕ → Command ℕ
  unfolding extend_locked
  extend_found r none = assert false >> pure 0
  extend_found r (some g_rd) = do ret ← extend_locked r g_rd; granule_unlock g_rd; pure ret

  unfoldable pub handle_rsi_extend_measurement : ℕ → Command ℕ
  unfolding extend_found
  handle_rsi_extend_measurement g_rec = do
    r ← read_rec g_rec
    let rd_addr = granule_addr plat r.realm_info.g_rd
    found ← find_lock_granule plat rd_addr rd
    extend_found r found
