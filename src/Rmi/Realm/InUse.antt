-- ===== src/Rmi/Realm/InUse.antt =====
-- runtime/rmi/realm.c, `smc_realm_destroy`: what happens while a table is in use.
use acai_rmm.Common.{
  ℕ, zero, suc, ◌+◌, ◌%◌, ◌^◌, ◌<◌, ◌≡◌, ◌≢◌, refl, true, false, some, arith, update,
}
use acai_rmm.State.{Granule, Platform, rd, rtt, same_state_iff, Rmm, done}
use acai_rmm.Status.{rmi_error_in_use}
use acai_rmm.Granule.Ops.{unlocked_invariants}
use acai_rmm.Granule.Find.{found, find_granule, find_lock_unused_granule}
use acai_rmm.Granule.Quiet.{IsQuiet, locked, lock_granule-ok, unlock-locked}
use acai_rmm.Granule.Locking.{find_lock_granule_lem}
use acai_rmm.Vmid.{vmid_count}
use acai_rmm.Vmid.Laws.{AreWords, in_use, freed_state, vmid_free_lem}
use acai_rmm.Rmi.Realm.Destroy.{add_refcounts, total_root_rtt_refcount, smc_realm_destroy}

-- The references to the tables from `i` on, added up in 64 bits.
abbrev pub root_references : (ℕ → Granule) → ℕ → ℕ → ℕ → ℕ → ℕ
root_references gr g_rtt i refcount zero = refcount
root_references gr g_rtt i refcount (suc k) =
    root_references gr g_rtt (suc i) ((refcount + (gr (g_rtt + i)).refcount) % 2 ^ 64) k

-- Tables that can be locked.
pub record AreTables (s : Rmm) (g_rtt n : ℕ) : Type 0 where
  pub free : (i : ℕ) → i < n → (s.granules (g_rtt + i)).lock ≡ false
  pub tables : (i : ℕ) → i < n → (s.granules (g_rtt + i)).state ≡ rtt

pub add_refcounts-AreTables :
    (s : Rmm) (g_rtt n i refcount k : ℕ)
    → AreTables s g_rtt n
    → i + k ≡ n
    → add_refcounts g_rtt i refcount k s ≡ done (root_references s.granules g_rtt i refcount k) s
unfolding add_refcounts unlocked_invariants
add_refcounts-AreTables s g_rtt n i refcount zero t h = refl
add_refcounts-AreTables s g_rtt n i refcount (suc k) t h =
    let st = t.tables i (omega arith) in
    let fr = t.free i (omega arith) in
    ground (
      arith,
      lock_granule-ok (g_rtt + i) rtt s fr st (ground arith),
      unlock-locked (g_rtt + i) s fr (ground arith),
      add_refcounts-AreTables s g_rtt n (suc i)
          ((refcount + (s.granules (g_rtt + i)).refcount) % 2 ^ 64) k t (omega arith),
    )

-- References do not depend on the lock of a granule.
root_references-lock :
    (gr : ℕ → Granule) (g g_rtt i refcount k : ℕ)
    → root_references (update gr g (record (gr g) { lock = true })) g_rtt i refcount k
      ≡ root_references gr g_rtt i refcount k
root_references-lock gr g g_rtt i refcount zero = refl
root_references-lock gr g g_rtt i refcount (suc k) = ground (
  arith,
  root_references-lock gr g g_rtt (suc i) ((refcount + (gr (g_rtt + i)).refcount) % 2 ^ 64) k,
)

-- An unused descriptor of a realm whose root tables are `AreTables`.
pub record IsRealm (plat : Platform) (s : Rmm) (g : ℕ) : Type 0 where
  pub is_rd : (s.granules g).state ≡ rd
  pub unused : (s.granules g).refcount ≡ 0
  pub tables : AreTables s (s.rds g).s2_ctx.g_rtt (s.rds g).s2_ctx.num_root_rtts
  pub in_range : (s.rds g).s2_ctx.vmid < vmid_count plat

locked-AreTables :
    (s : Rmm) (g g_rtt n vmid : ℕ)
    → (s.granules g).state ≡ rd
    → AreTables s g_rtt n
    → AreTables (freed_state vmid (locked g s)) g_rtt n
locked-AreTables s g g_rtt n vmid e t = record {
  free = λ i h. ground (arith, t.free i h, t.tables i h);
  tables = λ i h. ground (arith, t.free i h, t.tables i h);
}

module _ (plat : Platform) where
  find_lock_unused_granule-rd :
      (addr g : ℕ) (s : Rmm)
      → IsQuiet s
      → find_granule plat addr ≡ some g
      → (s.granules g).state ≡ rd
      → (s.granules g).refcount ≡ 0
      → find_lock_unused_granule plat addr rd s ≡ done (found g) (locked g s)
  unfolding find_lock_unused_granule
  find_lock_unused_granule-rd addr g s quiet f e u =
      rw
        (
          find_lock_granule_lem plat addr rd s (λ k h. (quiet.free k, quiet.counted k)),
          f,
          (same_state_iff (s.granules g).state rd).1 e,
        )
        (ground (arith, u))

  -- In a state with no lock held and a bitmap of VMIDs in words of 64 bits, for a realm without
  -- execution contexts (its descriptor has no references), with root tables in the state of tables
  -- and a VMID below the number of VMIDs, while a root table is in use (the sum of the references to
  -- the root tables in 64 bits is not 0): `smc_realm_destroy` refuses with RMI_ERROR_IN_USE and
  -- leaves the granules and the descriptors as they were, but the VMID of the realm, which still
  -- exists, is no longer in use.
  pub smc_realm_destroy-in_use :
      (addr g : ℕ) (s : Rmm)
      → IsQuiet s
      → AreWords s
      → find_granule plat addr ≡ some g
      → IsRealm plat s g
      → root_references s.granules (s.rds g).s2_ctx.g_rtt 0 0 (s.rds g).s2_ctx.num_root_rtts ≢ 0
      → (smc_realm_destroy plat addr s
          ≡ done rmi_error_in_use (freed_state (s.rds g).s2_ctx.vmid s))
        × (in_use (freed_state (s.rds g).s2_ctx.vmid s) (s.rds g).s2_ctx.vmid ≡ false)
  unfolding smc_realm_destroy total_root_rtt_refcount
  smc_realm_destroy-in_use addr g s quiet words f r ne =
      let ctx = (s.rds g).s2_ctx in
      let s1 = locked g s in
      let free = vmid_free_lem plat ctx.vmid s1 words r.in_range in
      let sum =
        add_refcounts-AreTables (freed_state ctx.vmid s1) ctx.g_rtt ctx.num_root_rtts 0 0
          ctx.num_root_rtts
          (locked-AreTables s g ctx.g_rtt ctx.num_root_rtts ctx.vmid r.is_rd r.tables)
          (omega arith) in
      (
        rw
            (
              find_lock_unused_granule-rd addr g s quiet f r.is_rd r.unused,
              free.0,
              sum,
              root_references-lock s.granules g ctx.g_rtt 0 0 ctx.num_root_rtts,
            )
            (ground (
              arith,
              ne,
              unlock-locked g (freed_state ctx.vmid s) (quiet.free g) (quiet.counted g),
            )),
        ground (arith, (vmid_free_lem plat ctx.vmid s words r.in_range).1 ctx.vmid),
      )
