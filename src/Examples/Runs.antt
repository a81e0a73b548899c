-- ===== src/Examples/Runs.antt =====
-- Runs of several commands, and of the commands on execution contexts.
use acai_rmm.Common.{ℕ, ◌+◌, ◌<◌, ◌≡◌, refl, arith}
use acai_rmm.State.{Rmm, ns, delegated, done}
use acai_rmm.State.Fvp.{plat_granule_addr_to_idx}
use acai_rmm.Granule.Find.{find_granule}
use acai_rmm.Granule.Clean.{IsZero, IsClean}
use acai_rmm.Rmi.Granule.{smc_granule_undelegate}
use acai_rmm.Rmi.Granule.Delegate.{delegated_state, smc_granule_delegate_lem}
use acai_rmm.Rmi.Rec.Destroy.{smc_rec_destroy}
use acai_rmm.Rmi.Rec.Destroyed.{IsContext, smc_rec_destroy_lem}
use acai_rmm.Rmi.Steps.{Reach, here, next, delegate}
use acai_rmm.Rmi.Steps.Clean.{Reach-IsClean, undelegate-no-leak}
use acai_rmm.Examples.Setting.{
  board, start, with_context, start-IsQuiet, start-IsClean, with_context-IsClean, board-IsPlatform,
}

run : Reach board start (delegated_state 0x80006000 6 start)
unfolding find_granule plat_granule_addr_to_idx
run = next here (
    delegate 0x80006000 0
      (smc_granule_delegate_lem board board-IsPlatform 0x80006000 start start-IsQuiet))

Reach-IsClean_example : IsClean (delegated_state 0x80006000 6 start)
Reach-IsClean_example = Reach-IsClean board board-IsPlatform start-IsClean run

undelegate-no-leak_example :
    (u : Rmm) × (smc_granule_undelegate board 0x80006000 (delegated_state 0x80006000 6 start)
      ≡ done 0 u)
    × ((u.granules 6).state ≡ ns)
    × IsZero u 6
unfolding find_granule plat_granule_addr_to_idx
undelegate-no-leak_example =
    undelegate-no-leak board board-IsPlatform 0x80006000 6 start-IsClean run refl refl

with_context-IsContext : IsContext with_context 4
with_context-IsContext = record {
  is_rec = refl;
  unused = refl;
  aux = record {
    each = λ j lo hi. record { free = refl; is_aux = refl; unused = refl };
    distinct = λ j l lo lt hi. absurd (omega arith);
  };
  is_rd = refl;
  counted = omega arith;
  in_range = omega arith;
}

smc_rec_destroy_lem_example :
    (t : Rmm) × (smc_rec_destroy board 0x80004000 with_context ≡ done 0 t)
    × IsClean t
    × ((t.granules 4).state ≡ delegated)
    × ((j : ℕ) → j < 1 → (t.granules 5).state ≡ delegated)
    × ((t.granules 0).refcount + 1 ≡ 1)
unfolding find_granule plat_granule_addr_to_idx
smc_rec_destroy_lem_example =
    smc_rec_destroy_lem board 0x80004000 4 with_context with_context-IsClean refl
      with_context-IsContext
