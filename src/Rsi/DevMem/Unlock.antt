-- ===== src/Rsi/DevMem/Unlock.antt =====
-- runtime/rsi/dev_mem.c: what an address outside the protected addresses does to the locks.
use acai_rmm.Common.{
  ℕ, ◌-◌, ◌^◌, ◌≡◌, ◌≢◌, refl, true, false, arith, bit_and, ap, fun_ext, ◌∙◌, Bool-cases, inl, inr,
}
use acai_rmm.State.{Rmm, Rd, Platform, Granule, granule_size, rd, done}
use acai_rmm.Granule.Ops.{unlocked_invariants, granule_unlock}
use acai_rmm.Granule.Find.{granule_aligned}
use acai_rmm.Granule.Quiet.{locked, with_granule, with_granules, lock_granule-ok, unlock-ok}
use acai_rmm.Rmi.Rtt.Validate.{addr_in_par}
use acai_rmm.Rsi.Interface.{S2WalkResult, walk_invalid_params, rsi_error_input}
use acai_rmm.Rsi.Ipa.{realm_ipa_to_pa}
use acai_rmm.Rsi.DevMem.{DevMem, page_walked, delegate_pages, unlock_pages, handle_rsi_dev_mem}

-- Outside the protected addresses the walk fails at once and leaves its variable as it was.
outside :
    (plat : Platform) (d : Rd) (ipa : ℕ) (w : S2WalkResult) (s : Rmm)
    → addr_in_par d ipa ≡ false
    → realm_ipa_to_pa plat d ipa w s ≡ done (walk_invalid_params, w) s
unfolding realm_ipa_to_pa
outside plat d ipa w s h = elim (Bool-cases (granule_aligned ipa)) [
  | inl e ↦ rw (e, h) refl
  | inr e ↦ rw e refl
]

-- The lock of one granule released while another one is held, which is released next.
release :
    (g h : ℕ) (s : Rmm)
    → g ≢ h
    → (s.granules g).state ≡ rd
    → (s.granules g).lock ≡ false
    → granule_unlock g
        (with_granule (locked g s) h (record ((locked g s).granules h) { lock = false }))
      ≡ done tt (with_granule s h (record (s.granules h) { lock = false }))
unfolding unlocked_invariants
release g h s ne st free =
    let t : Rmm = with_granule (locked g s) h (record ((locked g s).granules h) { lock = false }) in
    unlock-ok g t (ground (arith, ne, st))
    ∙ ap (λ (gr : ℕ → Granule). done tt (with_granules s gr))
        (fun_ext λ k. ground (arith, ne, free))

abbrev own_rd : Rmm → ℕ → ℕ
own_rd s g_rec = (s.recs g_rec).realm_info.g_rd

-- A realm that asks for one page at an address outside the protected addresses of its descriptor makes
-- the handler release the lock of the granule that an uninitialised variable names, whoever holds it,
-- and return RSI_ERROR_INPUT; the lock of its own descriptor is taken and given back. The granule is
-- not the descriptor, whose lock is free, and meets the invariants of an unlocked granule.
pub handle_rsi_dev_mem-foreign_unlock :
    (plat : Platform) (walk_res : ℕ → S2WalkResult) (v : DevMem) (g_rec : ℕ) (s : Rmm)
    → (s.recs g_rec).regs 3 ≡ 1
    → addr_in_par (s.rds (own_rd s g_rec)) (bit_and ((s.recs g_rec).regs 1) (2 ^ 64 - granule_size))
      ≡ false
    → own_rd s g_rec ≢ (walk_res 0).llt
    → (s.granules (own_rd s g_rec)).state ≡ rd
    → (s.granules (own_rd s g_rec)).lock ≡ false
    → unlocked_invariants (s.granules (walk_res 0).llt).refcount (s.granules (walk_res 0).llt).state
      ≡ true
    → handle_rsi_dev_mem plat walk_res v g_rec s
      ≡ done
          (record { abort = false; rtt_level = 0; smc_result = rsi_error_input })
          (with_granule s (walk_res 0).llt (record (s.granules (walk_res 0).llt) { lock = false }))
unfolding handle_rsi_dev_mem page_walked delegate_pages unlock_pages unlocked_invariants
handle_rsi_dev_mem-foreign_unlock plat walk_res v g_rec s size out ne st free inv =
    let g : ℕ = own_rd s g_rec in
    let h : ℕ = (walk_res 0).llt in
    let ipa : ℕ = bit_and ((s.recs g_rec).regs 1) (2 ^ 64 - granule_size) in
    rw
      (
        size,
        lock_granule-ok g rd s free st refl,
        outside plat (s.rds g) ipa (walk_res 0) (locked g s) out,
        unlock-ok h (locked g s) (ground (arith, ne, inv)),
      )
      (rw (release g h s ne st free) refl)
