-- ===== src/Core/Esr.antt =====
-- lib/arch/include/esr.h and arch.h: the fields of the syndrome of an exception.
use acai_rmm.Common.{ℕ, ◌+◌, ◌-◌, ◌*◌, ◌/◌, ◌^◌, Bool, ◌==◌, ◌!=◌, if◌then◌else◌, bit_and}
use acai_rmm.State.{Command, pure, ◌>>◌, assert}

-- `~x` of 64 bits, and the two macros on a field of `width` bits from bit `shift` on.
abbrev pub complement : ℕ → ℕ
complement x = 2 ^ 64 - 1 - x

abbrev pub mask : ℕ → ℕ → ℕ
mask shift width = (2 ^ width - 1) * 2 ^ shift

abbrev pub extract : ℕ → ℕ → ℕ → ℕ
extract shift width reg = bit_and reg (mask shift width) / 2 ^ shift

abbrev pub esr_el2_ec_mask : ℕ
esr_el2_ec_mask = mask 26 6

abbrev pub esr_el2_ec_unknown : ℕ
esr_el2_ec_unknown = 0

abbrev pub esr_el2_ec_wfx : ℕ
esr_el2_ec_wfx = 1 * 2 ^ 26

abbrev pub esr_el2_ec_fpu : ℕ
esr_el2_ec_fpu = 7 * 2 ^ 26

abbrev pub esr_el2_ec_hvc : ℕ
esr_el2_ec_hvc = 22 * 2 ^ 26

abbrev pub esr_el2_ec_smc : ℕ
esr_el2_ec_smc = 23 * 2 ^ 26

abbrev pub esr_el2_ec_sysreg : ℕ
esr_el2_ec_sysreg = 24 * 2 ^ 26

abbrev pub esr_el2_ec_inst_abort : ℕ
esr_el2_ec_inst_abort = 32 * 2 ^ 26

abbrev pub esr_el2_ec_data_abort : ℕ
esr_el2_ec_data_abort = 36 * 2 ^ 26

abbrev pub esr_el2_ec_data_abort_sel : ℕ
esr_el2_ec_data_abort_sel = 37 * 2 ^ 26

abbrev pub esr_el2_il_mask : ℕ
esr_el2_il_mask = 2 ^ 25

abbrev pub esr_el2_iss_mask : ℕ
esr_el2_iss_mask = 2 ^ 25 - 1

-- The syndrome of an abort.
abbrev pub esr_el2_abort_isv_bit : ℕ
esr_el2_abort_isv_bit = 2 ^ 24

abbrev pub esr_el2_abort_sas_mask : ℕ
esr_el2_abort_sas_mask = mask 22 2

abbrev pub esr_el2_abort_sse_bit : ℕ
esr_el2_abort_sse_bit = 2 ^ 21

abbrev pub esr_el2_abort_sf_bit : ℕ
esr_el2_abort_sf_bit = 2 ^ 15

abbrev pub esr_el2_abort_set_mask : ℕ
esr_el2_abort_set_mask = mask 11 2

abbrev pub esr_el2_abort_set_uer : ℕ
esr_el2_abort_set_uer = 0

abbrev pub esr_el2_abort_set_uc : ℕ
esr_el2_abort_set_uc = 2 * 2 ^ 11

abbrev pub esr_el2_abort_set_ueo : ℕ
esr_el2_abort_set_ueo = 3 * 2 ^ 11

abbrev pub esr_el2_abort_fnv_bit : ℕ
esr_el2_abort_fnv_bit = 2 ^ 10

abbrev pub esr_el2_abort_ea_bit : ℕ
esr_el2_abort_ea_bit = 2 ^ 9

abbrev pub esr_el2_abort_s1ptw_bit : ℕ
esr_el2_abort_s1ptw_bit = 2 ^ 7

abbrev pub esr_el2_abort_wnr_bit : ℕ
esr_el2_abort_wnr_bit = 2 ^ 6

abbrev pub esr_el2_abort_fsc_mask : ℕ
esr_el2_abort_fsc_mask = 0x3f

abbrev pub esr_el2_abort_fsc_translation_fault : ℕ
esr_el2_abort_fsc_translation_fault = 0x04

abbrev pub esr_el2_abort_fsc_translation_fault_l0 : ℕ
esr_el2_abort_fsc_translation_fault_l0 = 0x04

abbrev pub esr_el2_abort_fsc_sea : ℕ
esr_el2_abort_fsc_sea = 0x10

abbrev pub esr_el2_abort_fsc_sea_ttw_start : ℕ
esr_el2_abort_fsc_sea_ttw_start = 0x13

abbrev pub esr_el2_abort_fsc_sea_ttw_end : ℕ
esr_el2_abort_fsc_sea_ttw_end = 0x17

abbrev pub esr_el2_abort_fsc_gpf : ℕ
esr_el2_abort_fsc_gpf = 0x28

abbrev pub esr_el2_abort_fsc_level_mask : ℕ
esr_el2_abort_fsc_level_mask = 3

-- The fields that the host is shown: EC, SET, FnV, EA and FSC; then ISV, SAS, SF and WnR too.
abbrev pub esr_nonemulated_abort_mask : ℕ
esr_nonemulated_abort_mask =
    esr_el2_ec_mask + esr_el2_abort_set_mask + esr_el2_abort_fnv_bit + esr_el2_abort_ea_bit
    + esr_el2_abort_fsc_mask

abbrev pub esr_emulated_abort_mask : ℕ
esr_emulated_abort_mask =
    esr_nonemulated_abort_mask + esr_el2_abort_isv_bit + esr_el2_abort_sas_mask
    + esr_el2_abort_sf_bit + esr_el2_abort_wnr_bit

unfoldable pub esr_srt : ℕ → ℕ
esr_srt esr = extract 16 5 esr

unfoldable pub esr_is_write : ℕ → Bool
esr_is_write esr = bit_and esr esr_el2_abort_wnr_bit != 0

unfoldable pub esr_sign_extend : ℕ → Bool
esr_sign_extend esr = bit_and esr esr_el2_abort_sse_bit != 0

unfoldable pub esr_sixty_four : ℕ → Bool
esr_sixty_four esr = bit_and esr esr_el2_abort_sf_bit != 0

unfoldable pub esr_sas : ℕ → ℕ
esr_sas esr = extract 22 2 esr

unfoldable pub access_len : ℕ → Command ℕ
unfolding esr_sas
access_len esr =
    if esr_sas esr == 0
    then pure 1
    else if esr_sas esr == 1
    then pure 2
    else if esr_sas esr == 2
    then pure 4
    else (do assert (esr_sas esr == 3); pure 8)

unfoldable pub access_mask : ℕ → Command ℕ
unfolding esr_sas
access_mask esr =
    if esr_sas esr == 0
    then pure 0xff
    else if esr_sas esr == 1
    then pure 0xffff
    else if esr_sas esr == 2
    then pure 0xffffffff
    else (do assert (esr_sas esr == 3); pure (2 ^ 64 - 1))

unfoldable pub esr_sysreg_rt : ℕ → ℕ
esr_sysreg_rt esr = extract 5 5 esr

-- `ESR_EL2_SYSREG_IS_WRITE`
unfoldable pub esr_el2_sysreg_is_write : ℕ → Bool
esr_el2_sysreg_is_write esr = bit_and esr 1 == 0

-- `ESR_EL2_SYSREG_ISS_RT`
unfoldable pub esr_el2_sysreg_iss_rt : ℕ → ℕ
esr_el2_sysreg_iss_rt esr = bit_and (bit_and esr esr_el2_iss_mask) (mask 5 5) / 2 ^ 5

-- The address that an abort reports: bits 4 to 43 of HPFAR_EL2, shifted left by 8.
unfoldable pub fault_ipa : ℕ → ℕ
fault_ipa hpfar = bit_and hpfar (mask 4 40) * 2 ^ 8
