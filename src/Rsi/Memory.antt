-- ===== src/Rsi/Memory.antt =====
-- runtime/rsi/memory.c: a realm asks for another RIPAS of a region, and for the RIPAS of an address.
pub mod Region
use acai_rmm.Common.{ℕ, ◌+◌, ◌%◌, ◌^◌, Bool, true, false, not, ◌||◌, leb, ltb, if◌then◌else◌}
use acai_rmm.State.{Platform, Rec, Command, pure, ◌>>=◌, ◌>>◌, read_rec, write_rec}
use acai_rmm.Granule.Find.{granule_aligned}
use acai_rmm.S2tt.Entry.{rmi_ram}
use acai_rmm.Rsi.Interface.{
  RecExit, RsiWalkSmcResult, to_realm, to_host, region_in_rec_par, addr_in_rec_par, rsi_success,
  rsi_error_input, rmi_exit_ripas_change,
}
use acai_rmm.Rsi.Ipa.{realm_ipa_get_ripas, ripas_is, destroyed_at}

-- The request is written into the execution context and into the exit.
unfoldable pub request_ripas : ℕ → Rec → RecExit → ℕ → ℕ → ℕ → Command (Bool × RecExit)
request_ripas g_rec r rec_exit start size ripas = do
  write_rec g_rec (record r {
    set_ripas = record {
      start = start;
      end = (start + size) % 2 ^ 64;
      addr = start;
      ripas = ripas;
    };
  })
  pure (
    false,
    record rec_exit {
      exit_reason = rmi_exit_ripas_change;
      ripas_base = start;
      ripas_size = size;
      ripas_value = ripas % 2 ^ 8;
    },
  )

-- True when the request is refused; `enum ripas` is 32 bits wide.
unfoldable pub handle_rsi_ipa_state_set : ℕ → RecExit → Command (Bool × RecExit)
unfolding request_ripas
handle_rsi_ipa_state_set g_rec rec_exit = do
  r ← read_rec g_rec
  let start = r.regs 1
  let size = r.regs 2
  let end = (start + size) % 2 ^ 64
  let ripas = r.regs 3 % 2 ^ 32
  if ltb rmi_ram ripas || not (granule_aligned start) || not (granule_aligned size) || leb end start
      then pure (true, rec_exit)
      else (do
        inside ← region_in_rec_par r start end
        if not inside
            then pure (true, rec_exit)
            else request_ripas g_rec r rec_exit start size ripas)

unfoldable pub handle_rsi_ipa_state_get : Platform → ℕ → Command RsiWalkSmcResult
handle_rsi_ipa_state_get plat g_rec = do
  r ← read_rec g_rec
  let ipa = r.regs 1
  if not (granule_aligned ipa) || not (addr_in_rec_par r ipa)
      then pure (to_realm rsi_error_input 0)
      else (do
        found ← realm_ipa_get_ripas plat r ipa
        elim found [
          | ripas_is ripas ↦ pure (to_realm rsi_success ripas)
          | destroyed_at level ↦ pure (to_host level)
        ])
