-- ===== src/Rmi/Realm/Destroy.antt =====
-- runtime/rmi/realm.c: a realm is destroyed.
use acai_rmm.Common.{ℕ, zero, suc, ◌+◌, ◌%◌, ◌^◌, ◌!=◌, if◌then◌else◌}
use acai_rmm.State.{Platform, delegated, rd, rtt, Command, pure, ◌>>=◌, ◌>>◌, read_granule, read_rd}
use acai_rmm.Status.{rmi_success, rmi_error_in_use}
use acai_rmm.Granule.Ops.{granule_lock, granule_unlock, granule_unlock_transition, granule_memzero}
use acai_rmm.Granule.Find.{Found, found, status, find_lock_unused_granule}
use acai_rmm.Vmid.{vmid_free}

-- The loop of `free_sl_rtts` from table `i` on, with `k` rounds left.
unfoldable pub free_sl_rtts_from : ℕ → ℕ → ℕ → Command (Unit {0})
free_sl_rtts_from g_rtt i zero = pure tt
free_sl_rtts_from g_rtt i (suc k) = do
  granule_lock (g_rtt + i) rtt
  granule_memzero (g_rtt + i)
  granule_unlock_transition (g_rtt + i) delegated
  free_sl_rtts_from g_rtt (suc i) k

unfoldable pub free_sl_rtts : ℕ → ℕ → Command (Unit {0})
unfolding free_sl_rtts_from
free_sl_rtts g_rtt num_rtts = free_sl_rtts_from g_rtt 0 num_rtts

-- The loop of `total_root_rtt_refcount`, with what was added up so far.
unfoldable pub add_refcounts : ℕ → ℕ → ℕ → ℕ → Command ℕ
add_refcounts g_rtt i refcount zero = pure refcount
add_refcounts g_rtt i refcount (suc k) = do
  granule_lock (g_rtt + i) rtt
  x ← read_granule (g_rtt + i)
  granule_unlock (g_rtt + i)
  add_refcounts g_rtt (suc i) ((refcount + x.refcount) % 2 ^ 64) k

unfoldable pub total_root_rtt_refcount : ℕ → ℕ → Command ℕ
unfolding add_refcounts
total_root_rtt_refcount g_rtt num_rtts = add_refcounts g_rtt 0 0 num_rtts

-- With the descriptor locked and unused.
unfoldable pub destroy_realm : Platform → Found → Command ℕ
unfolding free_sl_rtts total_root_rtt_refcount
destroy_realm plat (status e) = pure e
destroy_realm plat (found g_rd) = do
  d ← read_rd g_rd
  vmid_free plat d.s2_ctx.vmid
  refcount ← total_root_rtt_refcount d.s2_ctx.g_rtt d.s2_ctx.num_root_rtts
  if refcount != 0 then granule_unlock g_rd >> pure rmi_error_in_use else (do
    free_sl_rtts d.s2_ctx.g_rtt d.s2_ctx.num_root_rtts
    granule_memzero g_rd
    granule_unlock_transition g_rd delegated
    pure rmi_success)

unfoldable pub smc_realm_destroy : Platform → ℕ → Command ℕ
unfolding destroy_realm
smc_realm_destroy plat rd_addr = do
  g_rd ← find_lock_unused_granule plat rd_addr rd
  destroy_realm plat g_rd
