-- ===== src/Examples/Setting.antt =====
-- A small system: a board, a realm with two tables, and what holds of them.
use acai_rmm.Common.{ℕ, ◌^◌, refl, false, arith, ◌==◌, if◌then◌else◌, []}
use acai_rmm.State.{
  Platform, IsPlatform, Rmm, Granule, GranuleState, ns, delegated, rd, rec, rec_aux, rtt, zero_rd,
  zero_rec, Rd, zero_cpu,
}
use acai_rmm.State.Fvp.{fvp, fvp-IsPlatform}
use acai_rmm.Granule.Ops.{unlocked_invariants}
use acai_rmm.Granule.Quiet.{IsQuiet}
use acai_rmm.Granule.Clean.{IsClean}
use acai_rmm.Vmid.Laws.{AreWords}

-- A platform of 2 GB.
abbrev pub board : Platform
board = fvp 0x80000 (λ _ _. 0)

abbrev pub granule_in : GranuleState → ℕ → Granule
granule_in st n = record { lock = false; state = st; refcount = n; nsp = false }

-- Granule 0 is a realm descriptor, granules 1 and 2 are tables, granule 3 is delegated, and the
-- others are non-secure.
abbrev pub state_of : ℕ → GranuleState
state_of i =
    if i == 0
    then rd
    else if i == 1
    then rtt
    else if i == 2
    then rtt
    else if i == 3
    then delegated
    else ns

abbrev pub realm : Rd
realm = record zero_rd {
  s2_ctx = record { ipa_bits = 32; s2_starting_level = 2; num_root_rtts = 1; g_rtt = 1; vmid = 7 };
}

-- Entry 0 of the root table leads to granule 2.
abbrev pub start : Rmm
start = record {
  granules = λ i. granule_in (state_of i) (if i == 1 then 1 else 0);
  page = λ g i. if g == 1 then (if i == 0 then 0x80002003 else 0) else 0;
  rds = λ i. if i == 0 then realm else zero_rd;
  recs = λ _. zero_rec;
  vmids = λ i. if i == 0 then 2 ^ 7 else 0;
  cpu = zero_cpu;
  events = [];
}

pub start-IsQuiet : IsQuiet start
unfolding unlocked_invariants
start-IsQuiet = record { free = λ g. refl; counted = λ g. ground arith }

pub board-IsPlatform : IsPlatform board
board-IsPlatform = fvp-IsPlatform 0x80000 (λ _ _. 0) (omega arith)

pub start-AreWords : AreWords start
start-AreWords i = ground arith

-- The same, with granule 4 an execution context of the realm and granule 5 its auxiliary granule.
abbrev pub with_context : Rmm
with_context = record start {
  granules = λ i.
      if i == 4
      then granule_in rec 0
      else if i == 5
      then granule_in rec_aux 0
      else if i == 0
      then granule_in rd 1
      else start.granules i;
  recs = λ i.
      if i == 4
      then record zero_rec {
        num_rec_aux = 1;
        g_aux = λ _. 5;
        realm_info = record { ipa_bits = 32; s2_starting_level = 2; g_rtt = 1; g_rd = 0 };
      }
      else zero_rec;
}

-- The page of a delegated granule is zero in both.
pub start-IsClean : IsClean start
start-IsClean = record { quiet = start-IsQuiet; zero = λ g h. ground arith }

pub with_context-IsClean : IsClean with_context
unfolding unlocked_invariants
with_context-IsClean = record {
  quiet = record { free = λ g. ground arith; counted = λ g. ground arith };
  zero = λ g h. ground arith;
}
