-- ===== src/Asc.antt =====
-- lib/asc/src: the calls of the EL3 monitor that change the granule protection.
use acai_rmm.Common.{ℕ, ◌==◌}
use acai_rmm.State.{
  Platform, Event, mark_secure, mark_nonsecure, mark_secure_dev, attach_dev, Command, ◌>>◌, assert,
  emit,
}

module _ (plat : Platform) where
  -- `monitor_call` and the assertion on what it returns.
  unfoldable pub monitor_call_ok : Event → Command (Unit {0})
  monitor_call_ok e = emit e >> assert (plat.monitor_call e == 0)

  unfoldable pub asc_mark_secure : ℕ → Command (Unit {0})
  unfolding monitor_call_ok
  asc_mark_secure addr = monitor_call_ok (mark_secure addr)

  unfoldable pub asc_mark_nonsecure : ℕ → Command (Unit {0})
  unfolding monitor_call_ok
  asc_mark_nonsecure addr = monitor_call_ok (mark_nonsecure addr)

  unfoldable pub asc_mark_secure_dev : ℕ → ℕ → ℕ → Command (Unit {0})
  unfolding monitor_call_ok
  asc_mark_secure_dev addr delegate_flag iova =
      monitor_call_ok (mark_secure_dev addr delegate_flag iova)

  unfoldable pub asc_attach_dev : ℕ → Command (Unit {0})
  unfolding monitor_call_ok
  asc_attach_dev addr = monitor_call_ok (attach_dev addr)
