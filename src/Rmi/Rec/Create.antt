-- ===== src/Rmi/Rec/Create.antt =====
-- runtime/rmi/rec.c: a delegated granule becomes an execution context, with its auxiliary granules.
use acai_rmm.Common.{
  ℕ, zero, suc, ◌+◌, ◌%◌, ◌^◌, Bool, false, not, ◌||◌, Option, none, some, ltb, ◌!=◌, if◌then◌else◌,
  bit_and, update,
}
use acai_rmm.State.{
  Platform, Rd, Rec, GranuleState, ns, delegated, rd, rec, rec_aux, same_state, realm_state_new,
  Command, pure, ◌>>=◌, ◌>>◌, read_granule, read_rd, write_rd, read_rec, write_rec,
}
use acai_rmm.Status.{rmi_success, rmi_error_input, rmi_error_realm}
use acai_rmm.Granule.Ops.{
  granule_lock, granule_unlock, granule_unlock_transition, granule_memzero, atomic_granule_get,
}
use acai_rmm.Granule.Find.{find_granule, find_lock_granule}
use acai_rmm.Granule.Set.{find_lock_two_granules}
use acai_rmm.Rsi.Psci.{mpidr_is_valid, mpidr_to_rec_idx}
use acai_rmm.Rmi.Realm.Create.{max_rec_aux_granules}
use acai_rmm.Rsi.Attest.{attest_sign_not_started}
use acai_rmm.Rmi.Rec.Params.{RecParams, rec_params_measure, init_rec_regs, gic_cpu_state_init}

-- The loop of `free_rec_aux_granules` from granule `i` on, with `k` rounds left.
unfoldable pub free_aux_from : ℕ → ℕ → (ℕ → ℕ) → Bool → Command (Unit {0})
free_aux_from zero i aux scrub = pure tt
free_aux_from (suc k) i aux scrub =
    let rest = free_aux_from k (suc i) aux scrub in
    (do
      granule_lock (aux i) rec_aux
      (if scrub then granule_memzero (aux i) else pure tt)
      granule_unlock_transition (aux i) delegated
      rest)

unfoldable pub free_rec_aux_granules : (ℕ → ℕ) → ℕ → Bool → Command (Unit {0})
unfolding free_aux_from
free_rec_aux_granules aux cnt scrub = free_aux_from cnt 0 aux scrub

-- What `smc_rec_create` decides with both granules locked: the code, and the state of the granule.
pub record Decided : Type 0 where
  pub ret : ℕ
  pub new_rec_state : GranuleState

abbrev pub refused : ℕ → Decided
refused ret = record { ret = ret; new_rec_state = delegated }

module _ (plat : Platform) where
  -- The loop that turns delegated granules into auxiliary ones, from `i` on; `none` after a failure.
  unfoldable pub take_aux : ℕ → ℕ → (ℕ → ℕ) → (ℕ → ℕ) → Command (Option (ℕ → ℕ))
  unfolding free_rec_aux_granules
  take_aux zero i addrs aux = pure (some aux)
  take_aux (suc k) i addrs aux =
      let next = λ (g : ℕ). take_aux k (suc i) addrs (update aux i g) in
      (do
        found ← find_lock_granule plat (addrs i) delegated
        elim found [
          | none ↦ free_rec_aux_granules aux i false >> pure none
          | some g ↦ granule_unlock_transition g rec_aux >> next g
        ])

  -- The members of the context that follow from the realm.
  unfoldable pub fill_rec : ℕ → ℕ → Rec → Rd → RecParams → (ℕ → ℕ) → Command Rec
  fill_rec g_rec g_rd r d p aux = do
    started ← init_rec_regs plat (record r { g_rec = g_rec; rec_idx = d.rec_count }) p d
    let regs = gic_cpu_state_init started
    pure (record regs {
      g_aux = λ i. if ltb i p.num_aux then aux i else r.g_aux i;
      num_rec_aux = p.num_aux;
      realm_info = record {
        ipa_bits = d.s2_ctx.ipa_bits;
        s2_starting_level = d.s2_ctx.s2_starting_level;
        g_rtt = d.s2_ctx.g_rtt;
        g_rd = g_rd;
      };
      runnable = bit_and p.flags 1 != 0;
      ctx_initialised = false;
      token_sign_ctx = record regs.token_sign_ctx { state = attest_sign_not_started };
    })

  unfoldable pub init_rec : ℕ → ℕ → Rd → RecParams → (ℕ → ℕ) → Command Decided
  unfolding fill_rec
  init_rec g_rec g_rd d p aux = do
    r ← read_rec g_rec
    filled ← fill_rec g_rec g_rd r d p aux
    write_rec g_rec filled
    atomic_granule_get g_rd
    write_rd g_rd (record (rec_params_measure plat d p) { rec_count = (d.rec_count + 1) % 2 ^ 64 })
    pure (record { ret = rmi_success; new_rec_state = rec })

  unfoldable pub create_rec_locked : ℕ → ℕ → RecParams → (ℕ → ℕ) → Command Decided
  unfolding init_rec
  create_rec_locked g_rec g_rd p aux = do
    d ← read_rd g_rd
    if d.state != realm_state_new
        then pure (refused rmi_error_realm)
        else if not (mpidr_is_valid p.mpidr) || d.rec_count != mpidr_to_rec_idx p.mpidr
        then pure (refused rmi_error_input)
        else if p.num_aux != d.num_rec_aux
        then pure (refused rmi_error_input)
        else init_rec g_rec g_rd d p aux

  -- With the auxiliary granules taken.
  unfoldable pub create_rec_with : ℕ → ℕ → RecParams → (ℕ → ℕ) → Command ℕ
  unfolding create_rec_locked free_rec_aux_granules
  create_rec_with rec_addr rd_addr p aux = do
    locked ← find_lock_two_granules plat rec_addr delegated rd_addr rd
    ret ← elim locked [
      | none ↦ pure rmi_error_input
      | some g ↦ (do
        decided ← create_rec_locked g.0 g.1 p aux
        granule_unlock g.1
        granule_unlock_transition g.0 decided.new_rec_state
        pure decided.ret)
    ]
    (if ret != rmi_success then free_rec_aux_granules aux p.num_aux false else pure tt)
    pure ret

  unfoldable pub create_rec_params : ℕ → ℕ → RecParams → Command ℕ
  unfolding take_aux create_rec_with
  create_rec_params rec_addr rd_addr p =
      if ltb max_rec_aux_granules (p.num_aux % 2 ^ 32) then pure rmi_error_input else (do
        taken ← take_aux (p.num_aux % 2 ^ 32) 0 p.aux (λ i. 0)
        elim taken [
          | none ↦ pure rmi_error_input
          | some aux ↦
              create_rec_with rec_addr rd_addr (record p { num_aux = p.num_aux % 2 ^ 32 }) aux
        ])

  -- `ns_buffer_read` copies memory of the other world: what it gives is a parameter.
  unfoldable pub smc_rec_create : (ℕ → Option RecParams) → ℕ → ℕ → ℕ → Command ℕ
  unfolding create_rec_params
  smc_rec_create ns_buffer_read rec_addr rd_addr rec_params_addr =
      elim (find_granule plat rec_params_addr) [
        | none ↦ pure rmi_error_input
        | some g ↦ (do
          x ← read_granule g
          if not (same_state x.state ns) then pure rmi_error_input else elim (ns_buffer_read g) [
            | none ↦ pure rmi_error_input
            | some p ↦ create_rec_params rec_addr rd_addr p
          ])
      ]
