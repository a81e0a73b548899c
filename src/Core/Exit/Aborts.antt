-- ===== src/Core/Exit/Aborts.antt =====
-- runtime/core/exit.c: the aborts of a realm.
use acai_rmm.Common.{
  ℕ, ◌+◌, ◌%◌, ◌/◌, ◌^◌, Bool, true, false, not, ◌&&◌, ◌||◌, leb, ◌==◌, ◌!=◌, if◌then◌else◌,
  bit_and, update,
}
use acai_rmm.State.{
  Platform, granule_size, Rec, rtt, Command, fault, assertion, pure, ◌>>=◌, ◌>>◌, assert, read_rec,
  read_word,
}
use acai_rmm.Granule.Ops.{granule_lock, granule_unlock}
use acai_rmm.Granule.Find.{granule_aligned}
use acai_rmm.S2tt.Level.{rtt_page_level}
use acai_rmm.S2tt.Entry.{s2tte_is_destroyed, s2tte_get_ripas, rmi_empty}
use acai_rmm.S2tt.Walk.{rtt_walk_lock_unlock}
use acai_rmm.Rsi.Interface.{RecExit, addr_in_rec_par, rmi_exit_sync}
use acai_rmm.Core.Esr.{
  complement, esr_srt, esr_is_write, access_mask, fault_ipa, esr_el2_abort_fsc_mask,
  esr_el2_abort_set_mask, esr_el2_abort_set_uer, esr_el2_abort_set_uc, esr_el2_abort_set_ueo,
  esr_el2_abort_fsc_sea, esr_el2_abort_fsc_sea_ttw_start, esr_el2_abort_fsc_sea_ttw_end,
  esr_nonemulated_abort_mask, esr_emulated_abort_mask, esr_el2_ec_data_abort,
  esr_el2_abort_fsc_translation_fault, esr_el2_abort_fsc_translation_fault_l0,
  esr_el2_abort_fsc_level_mask, esr_el2_abort_isv_bit,
}
use acai_rmm.Core.Registers.{read_cpu}
use acai_rmm.Core.Inject.{inject_sync_idabort, spsr_el2_nrw}

unfoldable pub system_abort {ℓ} : {A : Type ℓ} → Command A
system_abort s = fault assertion

-- Whether the access was made in AArch32, and the syndrome without ISV where it was.
unfoldable pub fixup_aarch32_data_abort : ℕ → Command (Bool × ℕ)
fixup_aarch32_data_abort esr = do
  c ← read_cpu
  if bit_and c.spsr_el2 spsr_el2_nrw != 0
      then pure (true, bit_and esr (complement esr_el2_abort_isv_bit))
      else pure (false, esr)

unfoldable pub get_dabt_write_value : ℕ → ℕ → Command ℕ
get_dabt_write_value g_rec esr =
    if esr_srt esr == 31
    then pure 0
    else (do r ← read_rec g_rec; m ← access_mask esr; pure (bit_and (r.regs (esr_srt esr)) m))

unfoldable pub access_in_rec_par : Rec → ℕ → Bool
access_in_rec_par r addr = addr_in_rec_par r addr

unfoldable pub ipa_is_empty : Platform → ℕ → ℕ → Command Bool
ipa_is_empty plat ipa g_rec = do
  assert (granule_aligned ipa)
  r ← read_rec g_rec
  if not (addr_in_rec_par r ipa) then pure false else (do
    granule_lock r.realm_info.g_rtt rtt
    wi ←
        rtt_walk_lock_unlock plat r.realm_info.g_rtt r.realm_info.s2_starting_level
          r.realm_info.ipa_bits ipa rtt_page_level
    s2tte ← read_word wi.g_llt wi.index
    ret ←
        (if s2tte_is_destroyed s2tte
          then pure false
          else (do ripas ← s2tte_get_ripas s2tte; pure (ripas == rmi_empty)))
    granule_unlock wi.g_llt
    pure ret)

unfoldable pub fsc_is_external_abort : ℕ → Bool
fsc_is_external_abort fsc =
    fsc == esr_el2_abort_fsc_sea
    || (leb esr_el2_abort_fsc_sea_ttw_start fsc && leb fsc esr_el2_abort_fsc_sea_ttw_end)

unfoldable pub handle_sync_external_abort : RecExit → ℕ → Command (Bool × RecExit)
unfolding fsc_is_external_abort
handle_sync_external_abort rec_exit esr = do
  let fsc = bit_and esr esr_el2_abort_fsc_mask
  let set = bit_and esr esr_el2_abort_set_mask
  let shown : RecExit = record rec_exit { esr = bit_and esr esr_nonemulated_abort_mask }
  if not (fsc_is_external_abort fsc)
      then pure (false, rec_exit)
      else if set == esr_el2_abort_set_uer
      then (do inject_sync_idabort esr_el2_abort_fsc_sea; pure (true, shown))
      else if set == esr_el2_abort_set_ueo
      then pure (true, shown)
      else if set == esr_el2_abort_set_uc
      then system_abort
      else (λ s. fault assertion)

unfoldable pub emulate_stage2_data_abort : ℕ → RecExit → ℕ → Command RecExit
emulate_stage2_data_abort g_rec rec_exit rtt_level = do
  r ← read_rec g_rec
  let fipa = r.regs 1
  assert (leb rtt_level rtt_page_level)
  pure (record rec_exit {
    esr = esr_el2_ec_data_abort + (esr_el2_abort_fsc_translation_fault_l0 + rtt_level);
    far = 0;
    hpfar = fipa / 2 ^ 8;
    exit_reason = rmi_exit_sync;
  })

abbrev report : RecExit → ℕ → ℕ → ℕ → ℕ → RecExit
report e esr far hpfar write_val = record e {
  esr = esr;
  far = far;
  hpfar = hpfar;
  gprs = update e.gprs 0 write_val;
}

-- The access is neither in AArch32 nor protected: what the host needs to emulate it.
unfoldable pub report_emulated : ℕ → RecExit → ℕ → ℕ → Command (Bool × RecExit)
unfolding get_dabt_write_value
report_emulated g_rec rec_exit esr hpfar = do
  write_val ← (if esr_is_write esr then get_dabt_write_value g_rec esr else pure 0)
  c ← read_cpu
  pure (
    false,
    report rec_exit (bit_and esr esr_emulated_abort_mask) (c.far_el2 % granule_size) hpfar
        write_val,
  )

-- `far & ~GRANULE_MASK` keeps the offset in the granule.
unfoldable pub handle_data_abort : Platform → ℕ → RecExit → ℕ → Command (Bool × RecExit)
unfolding ipa_is_empty fixup_aarch32_data_abort handle_sync_external_abort report_emulated
    access_in_rec_par
handle_data_abort plat g_rec rec_exit esr = do
  c ← read_cpu
  let hpfar = c.hpfar_el2
  let fipa = fault_ipa hpfar
  (external, e) ← handle_sync_external_abort rec_exit esr
  if external then pure (false, e) else (do
    empty ← ipa_is_empty plat fipa g_rec
    if empty then (do inject_sync_idabort esr_el2_abort_fsc_sea; pure (true, e)) else (do
      (aarch32, esr') ← fixup_aarch32_data_abort esr
      r ← read_rec g_rec
      if aarch32 || access_in_rec_par r fipa
          then pure (false, report e (bit_and esr' esr_nonemulated_abort_mask) 0 hpfar 0)
          else report_emulated g_rec e esr' hpfar))

unfoldable pub handle_instruction_abort : Platform → ℕ → RecExit → ℕ → Command (Bool × RecExit)
unfolding ipa_is_empty handle_sync_external_abort access_in_rec_par
handle_instruction_abort plat g_rec rec_exit esr = do
  let fsc = bit_and esr esr_el2_abort_fsc_mask
  let fsc_type = bit_and fsc (complement esr_el2_abort_fsc_level_mask)
  c ← read_cpu
  let hpfar = c.hpfar_el2
  let fipa = fault_ipa hpfar
  (external, e) ← handle_sync_external_abort rec_exit esr
  if external then pure (false, e) else (do
    r ← read_rec g_rec
    empty ← (if not (access_in_rec_par r fipa) then pure true else ipa_is_empty plat fipa g_rec)
    if empty
        then (do inject_sync_idabort esr_el2_abort_fsc_sea; pure (true, e))
        else if fsc_type != esr_el2_abort_fsc_translation_fault
        then pure (false, e)
        else pure (false, record e { hpfar = hpfar; esr = bit_and esr esr_nonemulated_abort_mask }))
