-- ===== src/Granule/Find.antt =====
-- lib/realm/src/granule.c: the granule that a physical address names, and its lock.
use acai_rmm.Common.{ℕ, ◌%◌, Bool, Option, none, some, leb, ltb, ◌==◌, ◌!=◌, if◌then◌else◌, not}
use acai_rmm.State.{
  Platform, granule_size, GranuleState, Command, pure, ◌>>=◌, ◌>>◌, assert, read_granule,
}
use acai_rmm.Status.{rmi_error_input, rmi_error_in_use}
use acai_rmm.Granule.Ops.{granule_lock_on_state_match, granule_unlock}

-- What a search returns: a granule, or the error that `status_ptr` casts to a pointer.
pub data Found : Type 0 where
  found : ℕ → Found
  status : ℕ → Found

unfoldable pub granule_aligned : ℕ → Bool
granule_aligned addr = addr % granule_size == 0

module _ (plat : Platform) where
  unfoldable pub granule_addr : ℕ → ℕ
  granule_addr g = plat.idx_to_addr g

  unfoldable pub addr_to_granule : ℕ → Command ℕ
  addr_to_granule addr = do
    assert (granule_aligned addr)
    let idx = plat.addr_to_idx addr
    assert (ltb idx plat.max_granules)
    pure idx

  unfoldable pub find_granule : ℕ → Option ℕ
  unfolding granule_aligned
  find_granule addr =
      if not (granule_aligned addr)
      then none
      else if leb plat.max_granules (plat.addr_to_idx addr)
      then none
      else some (plat.addr_to_idx addr)

  -- The two halves of `find_lock_granule`, behind the test of the pointer and after it.
  unfoldable pub lock_found : Option ℕ → GranuleState → Command (Option ℕ)
  lock_found none expected_state = pure none
  lock_found (some g) expected_state = do
    matches ← granule_lock_on_state_match g expected_state
    if not matches then pure none else pure (some g)

  unfoldable pub find_lock_granule : ℕ → GranuleState → Command (Option ℕ)
  unfolding lock_found
  find_lock_granule addr expected_state = lock_found (find_granule addr) expected_state

  unfoldable pub unused_or_status : Option ℕ → Command Found
  unused_or_status none = pure (status rmi_error_input)
  unused_or_status (some g) = do
    x ← read_granule g
    if x.refcount != 0 then granule_unlock g >> pure (status rmi_error_in_use) else pure (found g)

  unfoldable pub find_lock_unused_granule : ℕ → GranuleState → Command Found
  unfolding unused_or_status
  find_lock_unused_granule addr expected_state = do
    g ← find_lock_granule addr expected_state
    unused_or_status g
