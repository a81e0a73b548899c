-- ===== src/Rmi/Rtt/Device/Lock.antt =====
-- runtime/rmi/rtt.c, `check_dev_addr_space`: a device without memory leaves the realm locked.
use acai_rmm.Common.{ℕ, zero, suc, ◌+◌, false, List, ◌<◌, ◌≡◌, refl, some, arith, [], ltb}
use acai_rmm.State.{Platform, rd, same_state_iff, Rmm, done, fault, deadlock, ◌>>◌}
use acai_rmm.Granule.Ops.{granule_lock_on_state_match, spinlock_acquire}
use acai_rmm.Granule.Find.{find_granule, find_lock_granule, lock_found}
use acai_rmm.Granule.Quiet.{IsQuiet, locked}
use acai_rmm.Granule.Locking.{find_lock_granule_lem}
use acai_rmm.Rmi.Realm.Create.{smc_realm_activate}
use acai_rmm.Rmi.Rtt.Device.{
  check_dev_addr_space, collect_bars, collect_pages, do_full_table_walk_check, walk_checks, Mapping,
  all_valid_addrs, max_checks,
}

module _ (plat : Platform) where
  empty_bar :
      (slots ipa pa size : ℕ) (checks : List Mapping) (s : Rmm)
      → size ≡ 0
      → collect_pages plat slots 0 ipa pa size checks s ≡ done (some (slots, checks)) s
  unfolding collect_pages
  empty_bar zero ipa pa size checks s e = rw e refl
  empty_bar (suc slots) ipa pa size checks s e =
      let none_left : ltb 0 size ≡ false = ground (arith, e) in rw none_left refl

  empty_bars :
      (k i slots : ℕ) (bar_sizes bar_ipa bar_pa : ℕ → ℕ) (checks : List Mapping) (s : Rmm)
      → ((j : ℕ) → j < i + k → bar_sizes j ≡ 0)
      → collect_bars plat k i slots bar_sizes bar_ipa bar_pa checks s
        ≡ done (some (slots, checks)) s
  unfolding collect_bars
  empty_bars zero i slots bar_sizes bar_ipa bar_pa checks s h = refl
  empty_bars (suc k) i slots bar_sizes bar_ipa bar_pa checks s h =
      rw (empty_bar slots (bar_ipa i) (bar_pa i) (bar_sizes i) checks s (h i (omega arith)))
        (empty_bars k (suc i) slots bar_sizes bar_ipa bar_pa checks s (λ j lt. h j (omega arith)))

module _ (plat : Platform) (rd_addr g : ℕ) (s : Rmm) (quiet : IsQuiet s) where
  found-locked :
      find_granule plat rd_addr ≡ some g
      → (s.granules g).state ≡ rd
      → find_lock_granule plat rd_addr rd s ≡ done (some g) (locked g s)
  found-locked f e =
      rw
        (
          find_lock_granule_lem plat rd_addr rd s (λ h p. (quiet.free h, quiet.counted h)),
          f,
          (same_state_iff (s.granules g).state rd).1 e,
        )
        refl

  stuck :
      find_granule plat rd_addr ≡ some g
      → find_lock_granule plat rd_addr rd (locked g s) ≡ fault deadlock
  unfolding find_lock_granule lock_found granule_lock_on_state_match spinlock_acquire
  stuck f = rw f (ground arith)

module _ (plat : Platform) where
  -- For a device whose six BARs are empty, `check_dev_addr_space` on a realm, in a state with no lock
  -- held, returns success with the realm descriptor still locked, and the next command that locks the
  -- descriptor, such as `smc_realm_activate`, never returns.
  pub check_dev_addr_space-keeps_lock :
      (rd_addr g : ℕ) (bar_sizes bar_ipa bar_pa : ℕ → ℕ) (s : Rmm)
      → IsQuiet s
      → find_granule plat rd_addr ≡ some g
      → (s.granules g).state ≡ rd
      → ((i : ℕ) → i < 6 → bar_sizes i ≡ 0)
      → (check_dev_addr_space plat rd_addr bar_sizes bar_ipa bar_pa s ≡ done 0 (locked g s))
        × ((check_dev_addr_space plat rd_addr bar_sizes bar_ipa bar_pa
                >> smc_realm_activate plat rd_addr)
              s
            ≡ fault deadlock)
  unfolding check_dev_addr_space do_full_table_walk_check walk_checks all_valid_addrs
      smc_realm_activate
  check_dev_addr_space-keeps_lock rd_addr g bar_sizes bar_ipa bar_pa s quiet f e empty =
      let none_found =
        empty_bars plat 6 0 max_checks bar_sizes bar_ipa bar_pa [] s
          (λ j lt. empty j (omega arith)) in
      let lock = found-locked plat rd_addr g s quiet f e in
      (rw (none_found, lock) refl, rw (none_found, lock, stuck plat rd_addr g s quiet f) refl)
