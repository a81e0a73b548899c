-- ===== src/Rmi/Realm/Create.antt =====
-- runtime/rmi/realm.c: a realm is created and activated.
use acai_rmm.Common.{
  ℕ, zero, suc, ◌+◌, ◌-◌, ◌*◌, ◌%◌, ◌^◌, Bool, not, ◌&&◌, Option, none, some, ◌∷◌, [], ltb, leb,
  ◌==◌, if◌then◌else◌, update,
}
use acai_rmm.State.{
  Platform, granule_size, ns, delegated, rd, rtt, same_state, Rd, realm_state_new,
  realm_state_active, Command, pure, ◌>>=◌, ◌>>◌, assert, read_granule, read_rd, write_rd,
}
use acai_rmm.Status.{rmi_success, rmi_error_input, rmi_error_realm}
use acai_rmm.Granule.Ops.{granule_unlock, granule_unlock_transition}
use acai_rmm.Granule.Find.{find_granule, find_lock_granule}
use acai_rmm.Vmid.{vmid_free}
use acai_rmm.Rmi.Realm.Params.{
  RealmParams, validate_realm_params, requested_ipa_bits, rmi_hash_algo_sha256,
}

-- Of lib/realm/include/realm.h.
unfoldable pub addr_is_contained : ℕ → ℕ → ℕ → Command Bool
addr_is_contained container_base container_end address = do
  assert (leb container_base ((container_end + 2 ^ 64 - 1) % 2 ^ 64))
  pure (leb container_base address && leb address ((container_end + 2 ^ 64 - 1) % 2 ^ 64))

abbrev pub max_rec_aux_granules : ℕ
max_rec_aux_granules = 16

abbrev pub hash_algo_sha256 : ℕ
hash_algo_sha256 = 0

abbrev pub hash_algo_sha512 : ℕ
hash_algo_sha512 = 1

-- With the descriptor locked.
unfoldable pub activate_locked : Option ℕ → Command ℕ
activate_locked none = pure rmi_error_input
activate_locked (some g_rd) = do
  d ← read_rd g_rd
  ret ←
      (if d.state == realm_state_new
        then write_rd g_rd (record d { state = realm_state_active }) >> pure rmi_success
        else pure rmi_error_realm)
  granule_unlock g_rd
  pure ret

unfoldable pub smc_realm_activate : Platform → ℕ → Command ℕ
unfolding activate_locked
smc_realm_activate plat rd_addr = do g_rd ← find_lock_granule plat rd_addr rd; activate_locked g_rd

-- The loop at `out_err` of `find_lock_rd_granules`: tables `i - 1` down to 0.
unfoldable pub unlock_tables : ℕ → ℕ → Command (Unit {0})
unlock_tables g_rtt_base zero = pure tt
unlock_tables g_rtt_base (suc i) = do granule_unlock (g_rtt_base + i); unlock_tables g_rtt_base i

-- `if (g_rd != NULL) granule_unlock(g_rd)`
unfoldable pub unlock_if : Option ℕ → Command (Unit {0})
unlock_if none = pure tt
unlock_if (some g) = granule_unlock g

unfoldable pub unlock_tables_and_rd : ℕ → ℕ → Option ℕ → Command (Option (ℕ × ℕ))
unfolding unlock_tables unlock_if
unlock_tables_and_rd g_rtt_base i g_rd = do unlock_tables g_rtt_base i; unlock_if g_rd; pure none

-- The granules that become tables.
unfoldable pub unlock_transition_tables : ℕ → ℕ → ℕ → Command (Unit {0})
unlock_transition_tables g_rtt_base i zero = pure tt
unlock_transition_tables g_rtt_base i (suc k) = do
  granule_unlock_transition (g_rtt_base + i) rtt
  unlock_transition_tables g_rtt_base (suc i) k

-- The digest of `realm_params_measure`: only the algorithm is in the message.
unfoldable pub realm_params_measure : Platform → Rd → RealmParams → Rd
realm_params_measure plat d p = record d {
  measurement = update d.measurement 0 (plat.hash d.algorithm (p.hash_algo ∷ []));
}

-- The descriptor of the new realm.
unfoldable pub init_rd : Platform → RealmParams → Option ℕ → Rd → Rd
unfolding realm_params_measure
init_rd plat p g_rtt d =
    realm_params_measure plat
      (record d {
        state = realm_state_new;
        rec_count = 0;
        s2_ctx = record {
          ipa_bits = requested_ipa_bits p;
          s2_starting_level = p.rtt_level_start;
          num_root_rtts = p.rtt_num_start;
          g_rtt = elim g_rtt [ none ↦ d.s2_ctx.g_rtt | some g ↦ g ];
          vmid = p.vmid;
        };
        num_rec_aux = max_rec_aux_granules;
        algorithm =
            if p.hash_algo == rmi_hash_algo_sha256 then hash_algo_sha256 else hash_algo_sha512;
        rpv = p.rpv;
      })
      p

module _ (plat : Platform) where
  -- The second place where the descriptor is locked, after `i` tables.
  unfoldable pub lock_rd_last : ℕ → ℕ → ℕ → Command (Option (ℕ × ℕ))
  unfolding unlock_tables_and_rd
  lock_rd_last rd_addr g_rtt_base i = do
    g_rd ← find_lock_granule plat rd_addr delegated
    elim g_rd [
      | some g ↦ pure (some (g, g_rtt_base))
      | none ↦ unlock_tables_and_rd g_rtt_base i none
    ]

  -- The loop over the tables from `i` on, with `k` rounds left, and the rest of the function.
  unfoldable pub lock_tables : ℕ → ℕ → Option ℕ → ℕ → ℕ → ℕ → Command (Option (ℕ × ℕ))
  unfolding unlock_tables_and_rd lock_rd_last
  lock_tables rd_addr rtt_base g_rd g_rtt_base i zero = elim g_rd [
    | some g ↦ pure (some (g, g_rtt_base))
    | none ↦ lock_rd_last rd_addr g_rtt_base i
  ]
  lock_tables rd_addr rtt_base g_rd g_rtt_base i (suc k) =
      let next = λ (g : ℕ). lock_tables rd_addr rtt_base g_rd g (suc i) k in
      (do
        g_rtt ← find_lock_granule plat ((rtt_base + i * granule_size) % 2 ^ 64) delegated
        elim g_rtt [
          | none ↦ unlock_tables_and_rd g_rtt_base i g_rd
          | some g ↦ next (if i == 0 then g else g_rtt_base)
        ])

  unfoldable pub find_lock_rd_granules : ℕ → ℕ → ℕ → Command (Option (ℕ × ℕ))
  unfolding lock_tables
  find_lock_rd_granules rd_addr rtt_base_addr num_rtts =
      if ltb rd_addr rtt_base_addr
      then (do
        g_rd ← find_lock_granule plat rd_addr delegated
        elim g_rd [
          | none ↦ pure none
          | some g ↦ lock_tables rd_addr rtt_base_addr (some g) 0 0 num_rtts
        ])
      else lock_tables rd_addr rtt_base_addr none 0 0 num_rtts

  -- With the parameters checked and the VMID reserved.
  unfoldable pub create_realm : ℕ → RealmParams → Option (ℕ × ℕ) → Command ℕ
  unfolding init_rd unlock_transition_tables
  create_realm rd_addr p none = do vmid_free plat p.vmid; pure rmi_error_input
  create_realm rd_addr p (some (g_rd, g_rtt_base)) = do
    d ← read_rd g_rd
    write_rd g_rd (init_rd plat p (find_granule plat p.rtt_base) d)
    granule_unlock_transition g_rd rd
    unlock_transition_tables g_rtt_base 0 p.rtt_num_start
    pure rmi_success

  unfoldable pub create_with : ℕ → Option RealmParams → Command ℕ
  unfolding create_realm addr_is_contained
  create_with rd_addr none = pure rmi_error_input
  create_with rd_addr (some p) = do
    valid ← validate_realm_params plat p
    if not valid then pure rmi_error_input else (do
      aliased ←
          addr_is_contained p.rtt_base ((p.rtt_base + p.rtt_num_start * granule_size) % 2 ^ 64)
            rd_addr
      if aliased then vmid_free plat p.vmid >> pure rmi_error_input else (do
        found ← find_lock_rd_granules rd_addr p.rtt_base p.rtt_num_start
        create_realm rd_addr p found))

  -- `ns_buffer_read` copies memory of the other world: what it gives is a parameter.
  module _ (ns_buffer_read : ℕ → Option RealmParams) where
    unfoldable pub get_realm_params : ℕ → Command (Option RealmParams)
    get_realm_params realm_params_addr = elim (find_granule plat realm_params_addr) [
      | none ↦ pure none
      | some g ↦ (do
        x ← read_granule g
        if not (same_state x.state ns) then pure none else pure (ns_buffer_read g))
    ]

    unfoldable pub smc_realm_create : ℕ → ℕ → Command ℕ
    unfolding get_realm_params create_with
    smc_realm_create rd_addr realm_params_addr = do
      p ← get_realm_params realm_params_addr
      create_with rd_addr p
