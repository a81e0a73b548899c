-- ===== src/Rmi/Rec/Destroyed.antt =====
-- runtime/rmi/rec.c, `smc_rec_destroy`: the whole effect on a well-formed execution context.
use acai_rmm.Common.{
  ℕ, ◌+◌, ◌-◌, ◌%◌, ◌^◌, ◌<◌, ◌≡◌, refl, false, ◌∙◌, ap, arith, some, update, update_ne,
}
use acai_rmm.State.{Platform, Granule, delegated, rd, rec, same_state_iff, Rmm, done}
use acai_rmm.Status.{rmi_success}
use acai_rmm.Granule.Ops.{
  unlocked_invariants, granule_memzero, granule_unlock_transition, atomic_granule_put,
}
use acai_rmm.Granule.Find.{find_granule, found, find_lock_unused_granule, unused_or_status}
use acai_rmm.Granule.Quiet.{locked, unlock_transition-ok}
use acai_rmm.Granule.Clean.{IsClean, freed, locked-IsCleanBut, freed-IsClean, counted-IsClean}
use acai_rmm.Granule.Locking.{find_lock_granule_lem}
use acai_rmm.Rmi.Rec.Create.{free_rec_aux_granules}
use acai_rmm.Rmi.Rec.Freeing.{
  AreAux, freed_from, scrubbed, free_aux_from_lem, freed_from-other, freed_from-aux,
  freed_from-IsCleanBut,
}
use acai_rmm.Rmi.Rec.Destroy.{smc_rec_destroy, destroy_rec}

-- An execution context that no command holds and that is not running.
pub record IsContext (s : Rmm) (g : ℕ) : Type 0 where
  pub is_rec : (s.granules g).state ≡ rec
  pub unused : (s.granules g).refcount ≡ 0
  pub aux : AreAux (s.recs g).num_rec_aux 0 (s.recs g).g_aux s
  pub is_rd : (s.granules (s.recs g).realm_info.g_rd).state ≡ rd
  pub counted : 0 < (s.granules (s.recs g).realm_info.g_rd).refcount
  pub in_range : (s.granules (s.recs g).realm_info.g_rd).refcount < 2 ^ 64

-- The state with one reference of a granule dropped.
abbrev pub put : ℕ → Rmm → Rmm
put d s = record s {
  granules = update s.granules d (record (s.granules d) { refcount = (s.granules d).refcount - 1 });
}

abbrev pub destroyed_rec_state : ℕ → Rmm → Rmm
destroyed_rec_state g s =
    put (s.recs g).realm_info.g_rd
      (freed g (freed_from (s.recs g).num_rec_aux 0 (s.recs g).g_aux (locked g s)))

module _ (plat : Platform) (g : ℕ) (s : Rmm) (clean : IsClean s) (ctx : IsContext s g) where
  d : ℕ
  d = (s.recs g).realm_info.g_rd

  emptied : Rmm
  emptied = freed_from (s.recs g).num_rec_aux 0 (s.recs g).g_aux (locked g s)

  locked-AreAux : AreAux (s.recs g).num_rec_aux 0 (s.recs g).g_aux (locked g s)
  locked-AreAux = record {
    each = λ j lo hi. record {
      free = ground (arith, (ctx.aux.each j lo hi).free, (ctx.aux.each j lo hi).is_aux, ctx.is_rec);
      is_aux = ground (arith, (ctx.aux.each j lo hi).is_aux);
      unused = ground (arith, (ctx.aux.each j lo hi).unused);
    };
    distinct = ctx.aux.distinct;
  }

  emptied-rec : emptied.granules g ≡ (locked g s).granules g
  unfolding emptied
  emptied-rec =
      freed_from-other (s.recs g).num_rec_aux 0 (s.recs g).g_aux (locked g s) g
        (λ j lo hi p. ground (arith, (ctx.aux.each j lo hi).is_aux, ctx.is_rec, p))

  emptied-unused : (emptied.granules g).refcount ≡ 0
  emptied-unused = ground (arith, emptied-rec, ctx.unused)

  emptied-rd : emptied.granules d ≡ s.granules d
  unfolding emptied d
  emptied-rd =
      freed_from-other (s.recs g).num_rec_aux 0 (s.recs g).g_aux (locked g s) d
        (λ j lo hi p. ground (arith, (ctx.aux.each j lo hi).is_aux, ctx.is_rd, p))
      ∙ ground (arith, ctx.is_rd, ctx.is_rec)

  freed-rd : (freed g emptied).granules d ≡ s.granules d
  unfolding d
  freed-rd =
      update_ne emptied.granules g (record (emptied.granules g) { lock = false; state = delegated })
        d (λ p. ground (arith, ctx.is_rd, ctx.is_rec, p))
      ∙ emptied-rd

  put-rd : atomic_granule_put d (freed g emptied) ≡ done tt (put d (freed g emptied))
  unfolding atomic_granule_put d
  put-rd =
      let r = ap (λ x. Granule.refcount x) freed-rd in
      let wraps : (((freed g emptied).granules d).refcount + 2 ^ 64 - 1) % 2 ^ 64
          ≡ ((freed g emptied).granules d).refcount - 1 =
        omega (arith, r, ctx.counted, ctx.in_range) in
      rw wraps refl

  unlock-rec :
      granule_unlock_transition g delegated (scrubbed g emptied) ≡ done tt (freed g emptied)
  unfolding unlocked_invariants
  unlock-rec =
      unlock_transition-ok g delegated (scrubbed g emptied)
        (ground (arith, emptied-rec, ctx.unused))

  locked_rec-destroyed :
      destroy_rec (found g) (locked g s) ≡ done rmi_success (destroyed_rec_state g s)
  unfolding destroy_rec free_rec_aux_granules granule_memzero emptied d
  locked_rec-destroyed =
      rw
        (
          free_aux_from_lem (s.recs g).num_rec_aux 0 (s.recs g).g_aux (locked g s) locked-AreAux,
          unlock-rec,
          put-rd,
        )
        refl

  found-rec :
      (addr : ℕ)
      → find_granule plat addr ≡ some g
      → find_lock_unused_granule plat addr rec s ≡ done (found g) (locked g s)
  unfolding find_lock_unused_granule unused_or_status
  found-rec addr f =
      rw
        (
          find_lock_granule_lem plat addr rec s
              (λ h e. (clean.quiet.free h, clean.quiet.counted h)),
          f,
          (same_state_iff (s.granules g).state rec).1 ctx.is_rec,
        )
        (ground (arith, ctx.unused))

  destroyed-IsClean : IsClean (destroyed_rec_state g s)
  unfolding d emptied
  destroyed-IsClean =
      counted-IsClean d (((freed g emptied).granules d).refcount - 1) (freed g emptied)
        (ap (λ x. Granule.state x) freed-rd ∙ ctx.is_rd)
        (freed-IsClean g emptied emptied-unused (
          freed_from-IsCleanBut (s.recs g).num_rec_aux 0 (s.recs g).g_aux (locked g s) g
            locked-AreAux (locked-IsCleanBut g s clean)))

  destroyed-aux :
      (j : ℕ)
      → j < (s.recs g).num_rec_aux
      → ((destroyed_rec_state g s).granules ((s.recs g).g_aux j)).state ≡ delegated
  unfolding d emptied
  destroyed-aux j lt =
      let e =
        freed_from-aux (s.recs g).num_rec_aux 0 (s.recs g).g_aux (locked g s) locked-AreAux j
          (omega arith) (omega arith) in
      ground (arith, e, (ctx.aux.each j (omega arith) (omega arith)).is_aux)

  destroyed-rec : ((destroyed_rec_state g s).granules g).state ≡ delegated
  unfolding d emptied
  destroyed-rec = ground (arith, ctx.is_rd, ctx.is_rec)

  destroyed-count : ((destroyed_rec_state g s).granules d).refcount + 1 ≡ (s.granules d).refcount
  unfolding d emptied
  destroyed-count = ground (arith, freed-rd, ctx.counted)

module _ (plat : Platform) where
  -- `smc_rec_destroy` of a context that is not running, in a clean state, succeeds: its granule and
  -- all of its auxiliary granules are delegated, the count of its realm is one less, and the state is
  -- clean, so that no lock is held and every page that became delegated is zero.
  pub smc_rec_destroy_lem :
      (addr g : ℕ) (s : Rmm)
      → IsClean s
      → find_granule plat addr ≡ some g
      → IsContext s g
      → (t : Rmm) × (smc_rec_destroy plat addr s ≡ done rmi_success t)
        × IsClean t
        × ((t.granules g).state ≡ delegated)
        × ((j : ℕ)
            → j < (s.recs g).num_rec_aux
            → (t.granules ((s.recs g).g_aux j)).state ≡ delegated)
        × ((t.granules (s.recs g).realm_info.g_rd).refcount + 1
            ≡ (s.granules (s.recs g).realm_info.g_rd).refcount)
  unfolding smc_rec_destroy d
  smc_rec_destroy_lem addr g s clean f ctx = (
    destroyed_rec_state g s,
    rw (found-rec plat g s clean ctx addr f, locked_rec-destroyed plat g s clean ctx) refl,
    destroyed-IsClean plat g s clean ctx,
    destroyed-rec plat g s clean ctx,
    destroyed-aux plat g s clean ctx,
    destroyed-count plat g s clean ctx,
  )
