-- ===== src/Examples/Commands.antt =====
-- Runs of the locks, of the VMIDs and of commands on granules and realms.
use acai_rmm.Common.{
  ℕ, ◌≡◌, refl, true, false, ◌&&◌, ◌||◌, some, arith, ◌==◌, ◌!=◌, update, [], ◌∷◌,
}
use acai_rmm.State.{Rmm, delegated, rd, zero_rd, zero_rec, done, ◌>>◌, mark_secure, mark_nonsecure}
use acai_rmm.State.Fvp.{plat_granule_addr_to_idx}
use acai_rmm.Granule.Find.{find_granule}
use acai_rmm.Granule.Set.{find_lock_two_granules}
use acai_rmm.Granule.Quiet.{locked}
use acai_rmm.Granule.Pair.{find_lock_two_granules_lem}
use acai_rmm.Vmid.{vmid_count, vmid_reserve, vmid_free}
use acai_rmm.Vmid.Laws.{in_use, freed_state, vmid_reserve_lem, vmid_free_lem}
use acai_rmm.Rmi.Granule.{smc_granule_delegate, smc_granule_undelegate}
use acai_rmm.Rmi.Granule.Delegate.{
  delegated_state, undelegated_state, smc_granule_delegate_lem, smc_granule_undelegate_lem,
  undelegate-delegate,
}
use acai_rmm.Rmi.Realm.Create.{smc_realm_activate}
use acai_rmm.Rmi.Realm.Destroy.{smc_realm_destroy}
use acai_rmm.Rmi.Realm.Laws.{activated_state, smc_realm_activate_lem}
use acai_rmm.Rmi.Realm.InUse.{IsRealm, smc_realm_destroy-in_use}
use acai_rmm.Examples.Setting.{board, start, start-IsQuiet, board-IsPlatform, start-AreWords}

find_lock_two_granules_lem_example :
    find_lock_two_granules board 0x80003000 delegated 0x80000000 rd start
    ≡ done (some (3, 0)) (locked 0 (locked 3 start))
unfolding find_granule plat_granule_addr_to_idx
find_lock_two_granules_lem_example =
    find_lock_two_granules_lem board board-IsPlatform 0x80003000 delegated 0x80000000 rd start
      start-IsQuiet

smc_granule_delegate_lem_example :
    smc_granule_delegate board 0x80005000 start ≡ done 0 (delegated_state 0x80005000 5 start)
unfolding find_granule plat_granule_addr_to_idx
smc_granule_delegate_lem_example =
    smc_granule_delegate_lem board board-IsPlatform 0x80005000 start start-IsQuiet

smc_granule_undelegate_lem_example :
    smc_granule_undelegate board 0x80003000 start ≡ done 0 (undelegated_state 0x80003000 3 start)
unfolding find_granule plat_granule_addr_to_idx
smc_granule_undelegate_lem_example =
    smc_granule_undelegate_lem board board-IsPlatform 0x80003000 start start-IsQuiet

undelegate-delegate_example :
    (smc_granule_delegate board 0x80005000 >> smc_granule_undelegate board 0x80005000) start
    ≡ done 0 (record start {
      page = update start.page 5 (λ _. 0);
      rds = update start.rds 5 zero_rd;
      recs = update start.recs 5 zero_rec;
      events = mark_nonsecure 0x80005000 ∷ mark_secure 0x80005000 ∷ [];
    })
unfolding find_granule plat_granule_addr_to_idx
undelegate-delegate_example =
    undelegate-delegate board board-IsPlatform 0x80005000 5 start start-IsQuiet refl refl

smc_realm_activate_lem_example :
    smc_realm_activate board 0x80000000 start ≡ done 0 (activated_state 0 start)
unfolding find_granule plat_granule_addr_to_idx
smc_realm_activate_lem_example = smc_realm_activate_lem board 0x80000000 start start-IsQuiet

vmid_reserve_lem_example :
    (t : Rmm) × (vmid_reserve board 70 start ≡ done true t)
    × ((w : ℕ) → in_use t w ≡ (in_use start w || (true && 70 == w)))
unfolding vmid_count
vmid_reserve_lem_example = vmid_reserve_lem board 70 start

vmid_free_lem_example :
    (vmid_free board 7 start ≡ done tt (freed_state 7 start))
    × ((w : ℕ) → in_use (freed_state 7 start) w ≡ (in_use start w && 7 != w))
unfolding vmid_count
vmid_free_lem_example = vmid_free_lem board 7 start start-AreWords (omega arith)

start-IsRealm : IsRealm board start 0
unfolding vmid_count
start-IsRealm = record {
  is_rd = refl;
  unused = refl;
  tables = record { free = λ i h. refl; tables = λ i h. ground arith };
  in_range = omega arith;
}

smc_realm_destroy-in_use_example :
    (smc_realm_destroy board 0x80000000 start ≡ done 5 (freed_state 7 start))
    × (in_use (freed_state 7 start) 7 ≡ false)
unfolding find_granule plat_granule_addr_to_idx
smc_realm_destroy-in_use_example =
    smc_realm_destroy-in_use board 0x80000000 0 start start-IsQuiet start-AreWords refl
      start-IsRealm (λ p. absurd (omega (arith, p)))
