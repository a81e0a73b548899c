-- ===== src/Core/Area/HostRegisters.antt =====
-- runtime/core/run.c: what the host finds in its registers after a whole run of a realm.
use acai_rmm.Common.{ℕ, ◌≡◌, refl, ◌∙◌}
use mathlib.Core.Path.{subst}
use acai_rmm.State.{Platform, Rmm, Outcome, done, fault, and_then}
use acai_rmm.Rsi.Interface.{RecExit}
use acai_rmm.Core.Machine.{Machine}
use acai_rmm.Core.Timers.{TimerExit}
use acai_rmm.Core.Run.Loop.{enter_realm, realm_rounds, leave_realm, rec_run_loop}
use acai_rmm.Core.Run.Loop.Host.{IsRestored, enter_lem, leave_lem, brought_back}
use acai_rmm.Core.Area.Keeps.{Area, Holds, Ends}
use acai_rmm.Core.Area.Rounds.{rounds-Keeps}

abbrev host_area : Rmm → Area
host_area s = record { sysregs = s.cpu.ns_data.sysregs; icc_sre = s.cpu.ns_data.icc_sre_el2 }

-- The parts of a sequence that returns.
first_part :
    {A B : Type 0} (o : Outcome A) (k : A → Rmm → Outcome B) (y : B) (t : Rmm)
    → and_then o k ≡ done y t
    → (x : A) × (u : Rmm) × (o ≡ done x u) × (k x u ≡ done y t)
first_part (done x u) k y t h = (x, u, refl, h)
first_part (fault f) k y t h = cc

module _ (plat : Platform) (m : Machine) (g : ℕ) where
  rounds_lem :
      (k : ℕ) (e e' : RecExit) (a b : Rmm)
      → realm_rounds plat m k g e a ≡ done e' b
      → Holds (host_area a) b.cpu.ns_data
  rounds_lem k e e' a b h =
      subst (λ o. Ends (host_area a) o) h
        ((rounds-Keeps plat m k g e).at a (record { sysregs = refl; icc_sre = refl }))

  -- A run of a realm that returns to the host: all the registers that the monitor saves, and
  -- ICC_SRE_EL2, hold what they held when the run started, whatever the realm did and whichever
  -- exceptions, traps and services of the realm the monitor handled in between.
  pub rec_run_loop-IsRestored :
      (rounds : ℕ) (e : RecExit) (s t : Rmm) (y : RecExit × TimerExit)
      → rec_run_loop plat m rounds g e s ≡ done y t
      → IsRestored t.cpu.el1 s.cpu.el1 × (t.cpu.icc_sre_el2 ≡ s.cpu.icc_sre_el2)
  unfolding rec_run_loop
  rec_run_loop-IsRestored rounds e s t y h =
      let (_, a, entered, h1) = first_part (enter_realm plat m g s) _ y t h in
      let (e', b, ran, h2) = first_part (realm_rounds plat m rounds g e a) _ y t h1 in
      let (x, u, left, h3) = first_part (leave_realm plat m g b) _ y t h2 in
      let en = enter_lem plat m g s a entered in
      let r = rounds_lem rounds e e' a b ran in
      let l = leave_lem plat m g b u x left in
      let same : u ≡ t = cc in
      let back : IsRestored u.cpu.el1 s.cpu.el1 × (u.cpu.icc_sre_el2 ≡ s.cpu.icc_sre_el2) = (
        brought_back u.cpu.el1 l.0 b.cpu.ns_data.sysregs s l.1 (r.sysregs ∙ en.0),
        l.2 ∙ r.icc_sre ∙ en.1,
      ) in
      subst (λ (v : Rmm). IsRestored v.cpu.el1 s.cpu.el1 × (v.cpu.icc_sre_el2 ≡ s.cpu.icc_sre_el2))
        same back
