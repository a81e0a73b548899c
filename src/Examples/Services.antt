-- ===== src/Examples/Services.antt =====
-- Runs of the services for a realm, of the sort of the granules, of changes of RIPAS and of the checks of a device.
use acai_rmm.Common.{ℕ, ◌^◌, ◌≡◌, refl, Bool, true, false, some, arith, ◌==◌, if◌then◌else◌, update}
use acai_rmm.State.{Rmm, delegated, rtt, zero_rec, done, fault, deadlock, ◌>>=◌, ◌>>◌}
use acai_rmm.State.Fvp.{plat_granule_addr_to_idx}
use acai_rmm.Granule.Ops.{unlocked_invariants}
use acai_rmm.Granule.Find.{find_granule}
use acai_rmm.Granule.Quiet.{locked, with_granule}
use acai_rmm.Granule.Set.{GranuleSet, SetArray, sort_granules}
use acai_rmm.Granule.Sorting.{IsSortedTo, count, sort_granules_lem}
use acai_rmm.S2tt.Level.{shift_left}
use acai_rmm.S2tt.Entry.{s2tte_is_unassigned, s2tte_get_ripas}
use acai_rmm.Rmi.Realm.Create.{smc_realm_activate}
use acai_rmm.Rmi.Rtt.Ripas.{update_ripas}
use acai_rmm.Rmi.Rtt.Ripas.Laws.{update_ripas-empty-unassigned}
use acai_rmm.Rmi.Rtt.Device.{check_dev_addr_space}
use acai_rmm.Rmi.Rtt.Device.Lock.{check_dev_addr_space-keeps_lock}
use acai_rmm.Rsi.Interface.{RecExit, S2WalkResult, to_host, rec_par_size}
use acai_rmm.Rsi.Ipa.{ipa_to_pa_at}
use acai_rmm.Rsi.Config.{config_walked}
use acai_rmm.Rsi.Config.Uninitialised.{config_walked-uninitialised}
use acai_rmm.Rmi.Rtt.Validate.{addr_in_par}
use acai_rmm.Rsi.DevMem.{DevMem, handle_rsi_dev_mem}
use acai_rmm.Rsi.DevMem.Unlock.{handle_rsi_dev_mem-foreign_unlock}
use acai_rmm.Rsi.Memory.{handle_rsi_ipa_state_set}
use acai_rmm.Rsi.Memory.Region.{asked, ripas_change, handle_rsi_ipa_state_set_lem}
use acai_rmm.Examples.Power.{caller}
use acai_rmm.Examples.Setting.{board, start, granule_in, start-IsQuiet}

abbrev entry : ℕ → GranuleSet
entry a = record { idx = 0; addr = a; state = delegated; g = 0; g_ret = 0 }

abbrev entries : SetArray
entries = λ i. if i == 0 then entry 0x5000 else if i == 1 then entry 0x3000 else entry 0x4000

sort_granules_lem_example :
    IsSortedTo 3 (sort_granules entries 3)
    × ((p : GranuleSet → Bool) → count p 3 (sort_granules entries 3) ≡ count p 3 entries)
sort_granules_lem_example = sort_granules_lem entries 3

abbrev no_exit : RecExit
no_exit = record {
  exit_reason = 0;
  esr = 0;
  far = 0;
  hpfar = 0;
  gprs = λ _. 0;
  ripas_base = 0;
  ripas_size = 0;
  ripas_value = 0;
  imm = 0;
}

abbrev asking : Rmm
asking = record start {
  recs = λ i.
      if i == 4
      then record (caller 0) {
        regs = λ i. if i == 1 then 0x2000 else if i == 2 then 0x3000 else if i == 3 then 1 else 0;
      }
      else zero_rec;
}

handle_rsi_ipa_state_set_lem_example :
    handle_rsi_ipa_state_set 4 no_exit asking
    ≡ done
        (false, ripas_change (asking.recs 4) no_exit)
        (record asking { recs = update asking.recs 4 (asked (asking.recs 4)) })
unfolding rec_par_size shift_left
handle_rsi_ipa_state_set_lem_example =
    handle_rsi_ipa_state_set_lem 4 no_exit asking (record {
      start = omega arith;
      size = omega arith;
      some_par = omega arith;
      par = omega arith;
    })

update_ripas-empty-unassigned_example : update_ripas 0x40 3 0 start ≡ done (some 0x40) start
unfolding s2tte_is_unassigned
update_ripas-empty-unassigned_example = update_ripas-empty-unassigned 0x40 3 start refl

config_walked-uninitialised_example :
    (ipa_to_pa_at 0x1000
          (record { g_llt = 2; index = 1; last_level = 3 })
          (record { pa = 0; rtt_level = 0; ripas = 0; destroyed = true; llt = 0 })
        >>= config_walked board (caller 0))
      start
    ≡ done (to_host 3) (with_granule start 2 (granule_in rtt 0))
unfolding s2tte_is_unassigned s2tte_get_ripas unlocked_invariants
config_walked-uninitialised_example =
    config_walked-uninitialised board (caller 0) 0x1000
      (record { g_llt = 2; index = 1; last_level = 3 })
      (record { pa = 0; rtt_level = 0; ripas = 0; destroyed = true; llt = 0 }) start refl refl refl

check_dev_addr_space-keeps_lock_example :
    (check_dev_addr_space board 0x80000000 (λ _. 0) (λ _. 0x1000) (λ _. 0x80003000) start
      ≡ done 0 (locked 0 start))
    × ((check_dev_addr_space board 0x80000000 (λ _. 0) (λ _. 0x1000) (λ _. 0x80003000)
            >> smc_realm_activate board 0x80000000)
          start
        ≡ fault deadlock)
unfolding find_granule plat_granule_addr_to_idx
check_dev_addr_space-keeps_lock_example =
    check_dev_addr_space-keeps_lock board 0x80000000 0 (λ _. 0) (λ _. 0x1000) (λ _. 0x80003000)
      start start-IsQuiet refl refl (λ i lt. refl)

-- Context 4 asks for a page far outside; another processor holds granule 2.
abbrev asking_outside : Rmm
asking_outside = record start {
  granules = update start.granules 2 (record (granule_in rtt 0) { lock = true });
  recs = λ i.
      if i == 4
      then record (caller 0) { regs = λ j. if j == 1 then 2 ^ 40 else if j == 3 then 1 else 0 }
      else zero_rec;
}

abbrev no_arrays : DevMem
no_arrays = record {
  res = record { abort = false; rtt_level = 0; smc_result = 0 };
  ipa = 0;
  size_del = 0;
  grs = λ _. 0;
  pas = λ _. 0;
  ipas = λ _. 0;
}

abbrev junk : ℕ → S2WalkResult
junk i = record { pa = 0; rtt_level = 0; ripas = 0; destroyed = false; llt = 2 }

handle_rsi_dev_mem-foreign_unlock_example :
    handle_rsi_dev_mem board junk no_arrays 4 asking_outside
    ≡ done
        (record { abort = false; rtt_level = 0; smc_result = 1 })
        (with_granule asking_outside 2 (granule_in rtt 0))
unfolding addr_in_par shift_left unlocked_invariants
handle_rsi_dev_mem-foreign_unlock_example =
    handle_rsi_dev_mem-foreign_unlock board junk no_arrays 4 asking_outside refl refl (omega arith)
      refl refl refl
