-- ===== src/Rmi/Run/Enter/NotRun.antt =====
-- runtime/rmi/run.c: an execution context that may not run is given back as it was.
use acai_rmm.Common.{
  ℕ, ◌+◌, ◌^◌, ◌≡◌, refl, ap, arith, Bool, true, false, not, Option, none, some, ◌==◌, ◌||◌,
  if◌then◌else◌, update_same, update-update, ◌∙◌,
}
use acai_rmm.State.{
  Platform, ns, rec, same_state_iff, realm_state_new, realm_state_active, realm_state_system_off,
  Rmm, done,
}
use acai_rmm.Status.{rmi_error_rec, rmi_error_realm, pack_return_code, pack_struct_return_code}
use acai_rmm.Granule.Ops.{
  unlocked_invariants, granule_unlock, atomic_granule_get, atomic_granule_put_release,
}
use acai_rmm.Granule.Find.{found, find_granule, find_lock_unused_granule, unused_or_status}
use acai_rmm.Granule.Quiet.{IsQuiet, locked, with_granule, with_granules}
use acai_rmm.Granule.Locking.{find_lock_granule_lem}
use acai_rmm.Core.Machine.{Machine}
use acai_rmm.Rmi.Run.Completion.{RecEntry}
use acai_rmm.Rmi.Run.Enter.{
  entry_refused, realm_error, enter_context, copy_exit, enter_locked, enter_found, smc_rec_enter,
}

-- The code for a context that may not run: by the state of its realm, and then by its own.
abbrev pub refusal : ℕ → Bool → Bool → Option ℕ
refusal realm_state runnable pending =
    if realm_state == realm_state_new
    then some rmi_error_realm
    else if realm_state == realm_state_system_off
    then some (rmi_error_realm + 2 ^ 8)
    else if realm_state == realm_state_active
    then if not runnable || pending then some rmi_error_rec else none
    else none

-- While the context is held its count is 1.
abbrev held : ℕ → Rmm → Rmm
held g s = with_granule s g (record (s.granules g) { lock = false; refcount = 1 })

module _ (g : ℕ) (s : Rmm) (is_rec : (s.granules g).state ≡ rec)
    (unused : (s.granules g).refcount ≡ 0) (free : (s.granules g).lock ≡ false) where
  get_lem :
      atomic_granule_get g (locked g s)
      ≡ done tt (with_granule s g (record (s.granules g) { lock = true; refcount = 1 }))
  unfolding atomic_granule_get
  get_lem = ground (
    arith,
    unused,
    ap (with_granules s) (
        update-update s.granules g (record (s.granules g) { lock = true })
          (record (s.granules g) { lock = true; refcount = 1 })),
  )

  unlock_lem :
      granule_unlock g (with_granule s g (record (s.granules g) { lock = true; refcount = 1 }))
      ≡ done tt (held g s)
  unfolding granule_unlock unlocked_invariants
  unlock_lem = ground (
    arith,
    is_rec,
    ap (with_granules s) (
        update-update s.granules g (record (s.granules g) { lock = true; refcount = 1 })
          (record (s.granules g) { lock = false; refcount = 1 })),
  )

  release_lem : atomic_granule_put_release g (held g s) ≡ done tt s
  unfolding atomic_granule_put_release
  release_lem = ground (
    arith,
    ap (with_granules s) (
        update-update s.granules g (record (s.granules g) { lock = false; refcount = 1 })
          (record (s.granules g) { lock = false; refcount = 0 })
        ∙ update_same s.granules g (record (s.granules g) { lock = false; refcount = 0 })
            (ground (arith, unused, free))),
  )

module _ (plat : Platform) where
  found_lem :
      (addr g : ℕ) (s : Rmm)
      → IsQuiet s
      → find_granule plat addr ≡ some g
      → (s.granules g).state ≡ rec
      → (s.granules g).refcount ≡ 0
      → find_lock_unused_granule plat addr rec s ≡ done (found g) (locked g s)
  unfolding find_lock_unused_granule unused_or_status
  found_lem addr g s quiet f is_rec unused =
      rw
        (
          find_lock_granule_lem plat addr rec s (λ x e. (quiet.free x, quiet.counted x)),
          f,
          (same_state_iff (s.granules g).state rec).1 is_rec,
        )
        (ground (arith, unused))

module _ (plat : Platform) (m : Machine) (rounds : ℕ) (entries : ℕ → Option RecEntry)
    (writable : ℕ → Bool) where
  context_lem :
      (g : ℕ) (entry : RecEntry) (code : ℕ) (s : Rmm)
      → refusal (s.rds (s.recs g).realm_info.g_rd).state (s.recs g).runnable (s.recs g).psci_pending
        ≡ some code
      → enter_context plat m rounds entries writable g entry s ≡ done (code, none) s
  unfolding enter_context realm_error pack_return_code pack_struct_return_code
  context_lem g entry code s h = ground (arith, h)

  -- In a quiet state, the entry, with a page of the host that is non-secure and can be read, of a
  -- context that is not in use, whose realm is new or switched off, or which is not runnable or
  -- waits for the completion of a request, returns the code of the reason; nothing is written to
  -- the host and the whole state is what it was.
  pub smc_rec_enter-refused :
      (rec_addr run_addr g g_run code : ℕ) (entry : RecEntry) (s : Rmm)
      → IsQuiet s
      → find_granule plat run_addr ≡ some g_run
      → (s.granules g_run).state ≡ ns
      → find_granule plat rec_addr ≡ some g
      → (s.granules g).state ≡ rec
      → (s.granules g).refcount ≡ 0
      → entries g_run ≡ some entry
      → refusal (s.rds (s.recs g).realm_info.g_rd).state (s.recs g).runnable (s.recs g).psci_pending
        ≡ some code
      → smc_rec_enter plat m rounds entries writable rec_addr run_addr s
        ≡ done (entry_refused code) s
  unfolding smc_rec_enter enter_found enter_locked copy_exit
  smc_rec_enter-refused rec_addr run_addr g g_run code entry s quiet fr is_ns f is_rec unused en h =
      rw
        (
          fr,
          (same_state_iff (s.granules g_run).state ns).1 is_ns,
          found_lem plat rec_addr g s quiet f is_rec unused,
          get_lem g s is_rec unused (quiet.free g),
          unlock_lem g s is_rec unused (quiet.free g),
          en,
          context_lem g entry code (held g s) h,
          release_lem g s is_rec unused (quiet.free g),
        )
        refl
