-- ===== src/Rsi/HostCall.antt =====
-- runtime/rsi/host_call.c: the registers of a call to the host go through a page of the realm.
use acai_rmm.Common.{
  ℕ, zero, suc, ◌+◌, ◌-◌, ◌/◌, ◌%◌, ◌^◌, Bool, true, false, not, none, some, ◌!=◌, if◌then◌else◌,
  update,
}
use acai_rmm.State.{
  Platform, granule_size, Command, pure, ◌>>=◌, ◌>>◌, assert, read_rec, read_rd, read_page,
  write_page,
}
use acai_rmm.Granule.Ops.{granule_unlock}
use acai_rmm.Granule.Find.{find_granule}
use acai_rmm.S2tt.Entry.{rmi_empty}
use acai_rmm.Rsi.Interface.{
  RecExit, S2WalkStatus, walk_success, walk_invalid_params, walk_fail, S2WalkResult,
  s2_walk_result_match_ripas, RsiWalkResult, addr_in_rec_par, rsi_success, rsi_error_input,
}
use acai_rmm.Rsi.Ipa.{realm_ipa_to_pa}

abbrev pub rsi_host_call_nr_gprs : ℕ
rsi_host_call_nr_gprs = 7

-- `sizeof(struct rsi_host_call)`
abbrev pub rsi_host_call_size : ℕ
rsi_host_call_size = 0x100

-- The one of `rec_exit` and `rec_entry` that is not NULL.
pub data CallSide : Type 0 where
  to_exit : RecExit → CallSide
  from_entry : (ℕ → ℕ) → CallSide

-- What `do_host_call` returns and writes: the code, the walk, and the exit where it was given.
pub record HostCallResult : Type 0 where
  pub smc_result : ℕ
  pub walk_result : RsiWalkResult
  pub side : CallSide

abbrev pub call_result : ℕ → Bool → ℕ → CallSide → HostCallResult
call_result code abort level side = record {
  smc_result = code;
  walk_result = record { abort = abort; rtt_level = level };
  side = side;
}

-- The copy of `n` registers, from register `i` on, between an array and words of the page.
unfoldable pub copy_out : ℕ → ℕ → (ℕ → ℕ) → ℕ → (ℕ → ℕ) → ℕ → ℕ
copy_out zero i content base gprs = gprs
copy_out (suc n) i content base gprs =
    copy_out n (suc i) content base (update gprs i (content (base + 1 + i)))

unfoldable pub copy_in : ℕ → ℕ → (ℕ → ℕ) → ℕ → (ℕ → ℕ) → ℕ → ℕ
copy_in zero i content base gprs = content
copy_in (suc n) i content base gprs =
    copy_in n (suc i) (update content (base + 1 + i) (gprs i)) base gprs

-- The page is that of `gr`; the structure starts at its word `base`.
unfoldable pub exchange : ℕ → ℕ → CallSide → Command CallSide
unfolding copy_out copy_in
exchange gr base (to_exit rec_exit) = do
  content ← read_page gr
  pure (
      to_exit (record rec_exit {
        imm = content base % 2 ^ 32;
        gprs = copy_out rsi_host_call_nr_gprs 0 content base rec_exit.gprs;
      }))
exchange gr base (from_entry gprs) = do
  content ← read_page gr
  write_page gr (copy_in rsi_host_call_nr_gprs 0 content base gprs)
  pure (from_entry gprs)

module _ (plat : Platform) where
  unfoldable pub host_call_walked :
      ℕ → CallSide → S2WalkStatus × S2WalkResult → Command HostCallResult
  unfolding exchange
  host_call_walked ipa side (walk_fail, res) =
      if s2_walk_result_match_ripas res rmi_empty
      then pure (call_result rsi_error_input false 0 side)
      else pure (call_result rsi_success true res.rtt_level side)
  host_call_walked ipa side (walk_invalid_params, res) =
      assert false >> pure (call_result rsi_success false 0 side)
  host_call_walked ipa side (walk_success, res) = elim (find_granule plat res.pa) [
    | none ↦ assert false >> pure (call_result rsi_success false 0 side)
    | some gr ↦ (do
      side' ← exchange gr (ipa % granule_size / 8) side
      granule_unlock res.llt
      pure (call_result rsi_success false 0 side'))
  ]

  -- `walk_result` is the variable of the source, which is not initialised.
  unfoldable pub do_host_call : S2WalkResult → ℕ → CallSide → Command HostCallResult
  unfolding host_call_walked
  do_host_call walk_result g_rec side = do
    r ← read_rec g_rec
    let ipa = r.regs 1
    assert (addr_in_rec_par r ipa)
    d ← read_rd r.realm_info.g_rd
    walked ← realm_ipa_to_pa plat d (ipa - ipa % granule_size) walk_result
    host_call_walked ipa side walked

  unfoldable pub handle_rsi_host_call : S2WalkResult → ℕ → RecExit → Command HostCallResult
  unfolding do_host_call
  handle_rsi_host_call walk_result g_rec rec_exit = do
    r ← read_rec g_rec
    let ipa = r.regs 1
    if ipa % rsi_host_call_size != 0
        then pure (call_result rsi_error_input false 0 (to_exit rec_exit))
        else if ipa / granule_size != (ipa + rsi_host_call_size - 1) % 2 ^ 64 / granule_size
        then pure (call_result rsi_error_input false 0 (to_exit rec_exit))
        else if not (addr_in_rec_par r ipa)
        then pure (call_result rsi_error_input false 0 (to_exit rec_exit))
        else do_host_call walk_result g_rec (to_exit rec_exit)

  unfoldable pub complete_rsi_host_call : S2WalkResult → ℕ → (ℕ → ℕ) → Command RsiWalkResult
  unfolding do_host_call
  complete_rsi_host_call walk_result g_rec rec_entry_gprs = do
    res ← do_host_call walk_result g_rec (from_entry rec_entry_gprs)
    pure res.walk_result
