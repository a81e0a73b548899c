-- ===== src/Rsi/Memory/Region.antt =====
-- runtime/rsi/memory.c: which regions a realm may ask another RIPAS for.
use acai_rmm.Common.{
  ℕ, ◌+◌, ◌%◌, ◌^◌, ◌<◌, ◌≡◌, refl, Bool, true, false, not, ◌&&◌, ◌||◌, ltb, leb, ◌==◌,
  if◌then◌else◌, arith, update, Bool-cases, inl, inr,
}
use acai_rmm.State.{Rec, Rmm, done, granule_size}
use acai_rmm.Granule.Find.{granule_aligned}
use acai_rmm.Rmi.Realm.Create.{addr_is_contained}
use acai_rmm.Rsi.Interface.{
  RecExit, rec_par_size, region_is_contained, region_in_rec_par, rmi_exit_ripas_change,
}
use acai_rmm.Rsi.Memory.{request_ripas, handle_rsi_ipa_state_set}

-- A region of whole granules, not empty, in the protected half of the address space, with no
-- wrap-around; and one of the two values.
abbrev pub acceptable : Rec → Bool
acceptable r =
    leb (r.regs 3 % 2 ^ 32) 1
    && (r.regs 1 % granule_size == 0
        && (r.regs 2 % granule_size == 0
            && (ltb 0 (r.regs 2) && leb (r.regs 1 + r.regs 2) (rec_par_size r))))

-- The request as the context keeps it.
abbrev pub asked : Rec → Rec
asked r = record r {
  set_ripas = record {
    start = r.regs 1;
    end = r.regs 1 + r.regs 2;
    addr = r.regs 1;
    ripas = r.regs 3 % 2 ^ 32;
  };
}

abbrev pub ripas_change : Rec → RecExit → RecExit
ripas_change r e = record e {
  exit_reason = rmi_exit_ripas_change;
  ripas_base = r.regs 1;
  ripas_size = r.regs 2;
  ripas_value = r.regs 3 % 2 ^ 32;
}

-- The registers are 64 bits wide, and so is the size of the protected addresses.
pub record IsSized (r : Rec) : Type 0 where
  pub start : r.regs 1 < 2 ^ 64
  pub size : r.regs 2 < 2 ^ 64
  pub some_par : 0 < rec_par_size r
  pub par : rec_par_size r < 2 ^ 64

-- `region_in_rec_par`, for a region that does not wrap around, makes no assertion fail and compares the
-- end of the region with the size.
region_in_rec_par_lem :
    (r : Rec) (base end : ℕ) (s : Rmm)
    → base < end
    → end < 2 ^ 64
    → IsSized r
    → region_in_rec_par r base end s ≡ done (leb end (rec_par_size r)) s
unfolding region_in_rec_par region_is_contained addr_is_contained
region_in_rec_par_lem r base end s h lt sized = ground (arith, sized.some_par, sized.par)

-- The tests before the region is compared with the protected addresses.
abbrev refused : Rec → Bool
refused r =
    ltb 1 (r.regs 3 % 2 ^ 32)
    || not (granule_aligned (r.regs 1))
    || not (granule_aligned (r.regs 2))
    || leb ((r.regs 1 + r.regs 2) % 2 ^ 64) (r.regs 1)

refused-acceptable : (r : Rec) → IsSized r → refused r ≡ true → acceptable r ≡ false
unfolding granule_aligned
refused-acceptable r sized h = ground (arith, sized.start, sized.size, sized.par, h)

accepted-acceptable :
    (r : Rec)
    → IsSized r
    → refused r ≡ false
    → ((r.regs 1 + r.regs 2) % 2 ^ 64 ≡ r.regs 1 + r.regs 2)
      × (r.regs 1 < r.regs 1 + r.regs 2)
      × (r.regs 1 + r.regs 2 < 2 ^ 64)
      × (r.regs 3 % 2 ^ 32 % 2 ^ 8 ≡ r.regs 3 % 2 ^ 32)
      × (acceptable r ≡ leb (r.regs 1 + r.regs 2) (rec_par_size r))
unfolding granule_aligned
accepted-acceptable r sized h = (
  ground (arith, sized.start, sized.size, h),
  ground (arith, sized.start, sized.size, h),
  ground (arith, sized.start, sized.size, h),
  ground (arith, h),
  ground (arith, sized.start, sized.size, h),
)

-- A request for a RIPAS is accepted exactly when the value is 0 or 1 and the region consists of whole
-- granules, is not empty and ends within the protected addresses without wrapping around: then the
-- context keeps the region and the exit carries it to the host. Otherwise the realm is told and
-- nothing changes. No assertion fails in either case.
pub handle_rsi_ipa_state_set_lem :
    (g : ℕ) (e : RecExit) (s : Rmm)
    → IsSized (s.recs g)
    → handle_rsi_ipa_state_set g e s ≡ (
        if acceptable (s.recs g)
        then done
            (false, ripas_change (s.recs g) e)
            (record s { recs = update s.recs g (asked (s.recs g)) })
        else done (true, e) s)
unfolding handle_rsi_ipa_state_set request_ripas
handle_rsi_ipa_state_set_lem g e s sized = elim (Bool-cases (refused (s.recs g))) [
  | inl h ↦ rw (h, refused-acceptable (s.recs g) sized h) refl
  | inr h ↦
      let a = accepted-acceptable (s.recs g) sized h in
      rw
        (
          h,
          a.0,
          region_in_rec_par_lem (s.recs g) ((s.recs g).regs 1)
              ((s.recs g).regs 1 + (s.recs g).regs 2) s a.1 a.2 sized,
          a.3,
          a.4,
        )
        (elim (Bool-cases (leb ((s.recs g).regs 1 + (s.recs g).regs 2) (rec_par_size (s.recs g)))) [
          | inl i ↦ rw i refl
          | inr i ↦ rw i refl
        ])
]
