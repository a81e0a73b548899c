-- ===== src/Granule/Ops.antt =====
-- lib/realm/include/granule.h: the lock, the state and the reference count of one granule.
use acai_rmm.Common.{ℕ, ◌+◌, ◌-◌, ◌%◌, ◌^◌, Bool, true, false, ltb, leb, ◌==◌, if◌then◌else◌, not}
use acai_rmm.State.{
  GranuleState, ns, delegated, rd, rec, rec_aux, data_granule, rtt, same_state, Command, fault,
  deadlock, pure, ◌>>=◌, ◌>>◌, assert, read_granule, write_granule, zero_page,
}

-- The switch of `__granule_assert_unlocked_invariants`.
unfoldable pub unlocked_invariants : ℕ → GranuleState → Bool
unlocked_invariants refcount ns = refcount == 0
unlocked_invariants refcount delegated = refcount == 0
unlocked_invariants refcount rd = true
unlocked_invariants refcount rec = leb refcount 1
unlocked_invariants refcount data_granule = refcount == 0
unlocked_invariants refcount rtt = leb 0 refcount
unlocked_invariants refcount rec_aux = refcount == 0

unfoldable pub granule_assert_unlocked_invariants : ℕ → GranuleState → Command (Unit {0})
granule_assert_unlocked_invariants g state = do
  x ← read_granule g
  assert (unlocked_invariants x.refcount state)

-- Acquiring a lock that is held never returns: nobody else runs.
unfoldable pub spinlock_acquire : ℕ → Command (Unit {0})
spinlock_acquire g = do
  x ← read_granule g
  if x.lock then (λ s. fault deadlock) else write_granule g (record x { lock = true })

unfoldable pub spinlock_release : ℕ → Command (Unit {0})
spinlock_release g = do x ← read_granule g; write_granule g (record x { lock = false })

unfoldable pub granule_get_state : ℕ → Command GranuleState
granule_get_state g = do x ← read_granule g; pure x.state

unfoldable pub granule_set_state : ℕ → GranuleState → Command (Unit {0})
granule_set_state g state = do x ← read_granule g; write_granule g (record x { state = state })

unfoldable pub granule_lock_on_state_match : ℕ → GranuleState → Command Bool
unfolding spinlock_acquire spinlock_release granule_get_state granule_assert_unlocked_invariants
granule_lock_on_state_match g expected_state = do
  spinlock_acquire g
  state ← granule_get_state g
  if not (same_state state expected_state)
      then spinlock_release g >> pure false
      else granule_assert_unlocked_invariants g expected_state >> pure true

unfoldable pub granule_lock : ℕ → GranuleState → Command (Unit {0})
granule_lock g expected_state = do
  locked ← granule_lock_on_state_match g expected_state
  assert locked

unfoldable pub granule_unlock : ℕ → Command (Unit {0})
unfolding spinlock_release granule_get_state granule_assert_unlocked_invariants
granule_unlock g = do
  state ← granule_get_state g
  granule_assert_unlocked_invariants g state
  spinlock_release g

unfoldable pub granule_unlock_transition : ℕ → GranuleState → Command (Unit {0})
unfolding granule_set_state
granule_unlock_transition g new_state = do granule_set_state g new_state; granule_unlock g

-- `refcount` is 64 bits wide.
unfoldable pub granule_get : ℕ → Command (Unit {0})
granule_get g = do
  x ← read_granule g
  write_granule g (record x { refcount = (x.refcount + 1) % 2 ^ 64 })

unfoldable pub granule_put : ℕ → Command (Unit {0})
granule_put g = do
  x ← read_granule g
  assert (ltb 0 x.refcount)
  write_granule g (record x { refcount = x.refcount - 1 })

unfoldable pub granule_refcount_inc : ℕ → ℕ → Command (Unit {0})
granule_refcount_inc g val = do
  x ← read_granule g
  write_granule g (record x { refcount = (x.refcount + val) % 2 ^ 64 })

unfoldable pub granule_refcount_dec : ℕ → ℕ → Command (Unit {0})
granule_refcount_dec g val = do
  x ← read_granule g
  assert (leb val x.refcount)
  write_granule g (record x { refcount = x.refcount - val })

unfoldable pub atomic_granule_get : ℕ → Command (Unit {0})
atomic_granule_get g = do
  x ← read_granule g
  write_granule g (record x { refcount = (x.refcount + 1) % 2 ^ 64 })

unfoldable pub atomic_granule_put : ℕ → Command (Unit {0})
atomic_granule_put g = do
  x ← read_granule g
  write_granule g (record x { refcount = (x.refcount + 2 ^ 64 - 1) % 2 ^ 64 })

-- The assertion is on the value before the subtraction.
unfoldable pub atomic_granule_put_release : ℕ → Command (Unit {0})
atomic_granule_put_release g = do
  x ← read_granule g
  write_granule g (record x { refcount = (x.refcount + 2 ^ 64 - 1) % 2 ^ 64 })
  assert (ltb 0 x.refcount)

-- `granule_memzero` maps the page, clears it and unmaps it; `granule_memzero_mapped` clears it.
unfoldable pub granule_memzero : ℕ → Command (Unit {0})
granule_memzero g = zero_page g
