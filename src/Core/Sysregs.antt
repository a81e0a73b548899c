-- ===== src/Core/Sysregs.antt =====
-- runtime/core/sysregs.c: a realm accesses a system register that is trapped.
use acai_rmm.Common.{
  ℕ, ◌+◌, ◌*◌, ◌^◌, Bool, true, false, not, ◌&&◌, ◌||◌, ◌==◌, ◌!=◌, if◌then◌else◌, bit_and, update,
  List, [], ◌∷◌,
}
use acai_rmm.State.{Command, pure, ◌>>=◌, ◌>>◌, assert, read_rec}
use acai_rmm.Rsi.Interface.{RecExit, rmi_exit_sync}
use acai_rmm.Core.Esr.{
  complement, mask, esr_sysreg_rt, esr_el2_sysreg_is_write, esr_el2_sysreg_iss_rt, esr_el2_il_mask,
}
use acai_rmm.Core.Machine.{Machine}
use acai_rmm.Core.Registers.{write_reg}

-- Of lib/arch/include/arch.h: the encoding of a register in a syndrome.
abbrev pub sysreg_esr : ℕ → ℕ → ℕ → ℕ → ℕ → ℕ
sysreg_esr op0 op1 crn crm op2 =
    op0 * 2 ^ 20 + op1 * 2 ^ 14 + crn * 2 ^ 10 + crm * 2 ^ 1 + op2 * 2 ^ 17

abbrev pub esr_el2_sysreg_mask : ℕ
esr_el2_sysreg_mask = sysreg_esr 3 7 15 15 7

abbrev pub esr_el2_sysreg_id_mask : ℕ
esr_el2_sysreg_id_mask = sysreg_esr 3 7 15 0 0

abbrev pub esr_el2_sysreg_id : ℕ
esr_el2_sysreg_id = sysreg_esr 3 0 0 0 0

abbrev pub esr_el2_sysreg_id_aa64pfr0_el1 : ℕ
esr_el2_sysreg_id_aa64pfr0_el1 = sysreg_esr 3 0 0 4 0

abbrev pub esr_el2_sysreg_id_aa64isar1_el1 : ℕ
esr_el2_sysreg_id_aa64isar1_el1 = sysreg_esr 3 0 0 6 1

abbrev pub esr_el2_sysreg_icc_pmr_el1 : ℕ
esr_el2_sysreg_icc_pmr_el1 = sysreg_esr 3 0 4 6 0

abbrev pub esr_el2_sysreg_icc_el1_mask : ℕ
esr_el2_sysreg_icc_el1_mask = sysreg_esr 3 3 15 8 0

abbrev pub esr_el2_sysreg_icc_el1 : ℕ
esr_el2_sysreg_icc_el1 = sysreg_esr 3 0 12 8 0

abbrev pub esr_el2_sysreg_icc_dir : ℕ
esr_el2_sysreg_icc_dir = sysreg_esr 3 0 12 11 1

abbrev pub esr_el2_sysreg_icc_sgi1r_el1 : ℕ
esr_el2_sysreg_icc_sgi1r_el1 = sysreg_esr 3 0 12 11 5

abbrev pub esr_el2_sysreg_icc_sgi0r_el1 : ℕ
esr_el2_sysreg_icc_sgi0r_el1 = sysreg_esr 3 0 12 11 7

-- The registers that the switch names.
abbrev pub known_idregs : List ℕ
known_idregs =
    sysreg_esr 3 0 0 4 0
    ∷ sysreg_esr 3 0 0 4 1
    ∷ sysreg_esr 3 0 0 5 0
    ∷ sysreg_esr 3 0 0 5 1
    ∷ sysreg_esr 3 0 0 5 4
    ∷ sysreg_esr 3 0 0 5 5
    ∷ sysreg_esr 3 0 0 6 0
    ∷ sysreg_esr 3 0 0 6 1
    ∷ sysreg_esr 3 0 0 7 0
    ∷ sysreg_esr 3 0 0 7 1
    ∷ sysreg_esr 3 0 0 7 2
    ∷ []

unfoldable pub is_known : ℕ → List ℕ → Bool
is_known idreg [] = false
is_known idreg (x ∷ xs) = idreg == x || is_known idreg xs

unfoldable pub read_idreg : Machine → ℕ → ℕ
unfolding is_known
read_idreg m idreg = if is_known idreg known_idregs then m.idreg idreg else 0

-- The fields that are hidden: pointer authentication; activity monitors (bits 44 to 47) and SVE
-- (bits 32 to 35).
unfoldable pub id_mask : ℕ → ℕ
id_mask idreg =
    if idreg == esr_el2_sysreg_id_aa64isar1_el1
    then 0xf * 2 ^ 4 + 0xf * 2 ^ 8 + 0xf * 2 ^ 24 + 0xf * 2 ^ 28
    else if idreg == esr_el2_sysreg_id_aa64pfr0_el1
    then mask 44 4 + mask 32 4
    else 0

unfoldable pub handle_id_sysreg_trap : Machine → ℕ → RecExit → ℕ → Command (Bool × RecExit)
unfolding read_idreg id_mask
handle_id_sysreg_trap m g_rec rec_exit esr = do
  assert (not (esr_el2_sysreg_is_write esr))
  let rt = esr_el2_sysreg_iss_rt esr
  if rt == 31 then pure (true, rec_exit) else (do
    let idreg = bit_and esr esr_el2_sysreg_mask
    write_reg g_rec rt (bit_and (read_idreg m idreg) (complement (id_mask idreg)))
    pure (true, rec_exit))

unfoldable pub handle_icc_el1_sysreg_trap : RecExit → ℕ → Command (Bool × RecExit)
handle_icc_el1_sysreg_trap rec_exit esr = do
  let sysreg = bit_and esr esr_el2_sysreg_mask
  assert (
      sysreg == esr_el2_sysreg_icc_dir
      || sysreg == esr_el2_sysreg_icc_sgi1r_el1
      || sysreg == esr_el2_sysreg_icc_sgi0r_el1)
  assert (esr_el2_sysreg_is_write esr)
  pure (false, record rec_exit { exit_reason = rmi_exit_sync; esr = esr })

-- `struct sysreg_handler`; the function is named.
pub data SysregHandlerFn : Type 0 where
  id_handler icc_handler : SysregHandlerFn

pub record SysregHandler : Type 0 where
  pub esr_mask : ℕ
  pub esr_value : ℕ
  pub fn : SysregHandlerFn

abbrev pub sysreg_handlers : List SysregHandler
sysreg_handlers =
    record { esr_mask = esr_el2_sysreg_id_mask; esr_value = esr_el2_sysreg_id; fn = id_handler }
    ∷ record {
      esr_mask = esr_el2_sysreg_icc_el1_mask;
      esr_value = esr_el2_sysreg_icc_el1;
      fn = icc_handler;
    }
    ∷ record {
      esr_mask = esr_el2_sysreg_mask;
      esr_value = esr_el2_sysreg_icc_pmr_el1;
      fn = icc_handler;
    }
    ∷ []

unfoldable pub run_handler : Machine → SysregHandlerFn → ℕ → RecExit → ℕ → Command (Bool × RecExit)
unfolding handle_id_sysreg_trap handle_icc_el1_sysreg_trap
run_handler m id_handler g_rec rec_exit esr = handle_id_sysreg_trap m g_rec rec_exit esr
run_handler m icc_handler g_rec rec_exit esr = handle_icc_el1_sysreg_trap rec_exit esr

unfoldable pub get_sysreg_write_value : ℕ → ℕ → Command ℕ
get_sysreg_write_value g_rec esr = do
  r ← read_rec g_rec
  pure (if esr_sysreg_rt esr == 31 then 0 else r.regs (esr_sysreg_rt esr))

unfoldable pub emulate_sysreg_access_ns : ℕ → RecExit → ℕ → Command RecExit
unfolding get_sysreg_write_value
emulate_sysreg_access_ns g_rec rec_exit esr =
    if esr_el2_sysreg_is_write esr
    then (do
      val ← get_sysreg_write_value g_rec esr
      pure (record rec_exit { gprs = update rec_exit.gprs 0 val }))
    else pure rec_exit

-- A register that no handler takes reads as zero and ignores writes.
unfoldable pub ignore_access : ℕ → RecExit → ℕ → Command (Bool × RecExit)
ignore_access g_rec rec_exit esr =
    if not (esr_el2_sysreg_is_write esr) && esr_el2_sysreg_iss_rt esr != 31
    then (do write_reg g_rec (esr_el2_sysreg_iss_rt esr) 0; pure (true, rec_exit))
    else pure (true, rec_exit)

-- The loop over the handlers: the first whose value the syndrome has under its mask.
unfoldable pub first_handler :
    Machine → List SysregHandler → ℕ → RecExit → ℕ → Command (Bool × RecExit)
unfolding run_handler emulate_sysreg_access_ns ignore_access
first_handler m [] g_rec rec_exit esr = ignore_access g_rec rec_exit esr
first_handler m (h ∷ hs) g_rec rec_exit esr =
    let rest = first_handler m hs g_rec rec_exit esr in
    if bit_and esr h.esr_mask == h.esr_value
    then (do
      (handled, e) ← run_handler m h.fn g_rec rec_exit esr
      if not handled
          then (do e' ← emulate_sysreg_access_ns g_rec e esr; pure (handled, e'))
          else pure (handled, e))
    else rest

unfoldable pub handle_sysreg_access_trap : Machine → ℕ → RecExit → ℕ → Command (Bool × RecExit)
unfolding first_handler
handle_sysreg_access_trap m g_rec rec_exit esr = do
  assert (bit_and esr esr_el2_il_mask != 0)
  first_handler m sysreg_handlers g_rec rec_exit esr
