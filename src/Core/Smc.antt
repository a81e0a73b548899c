-- ===== src/Core/Smc.antt =====
-- lib/smc/include/smc.h, runtime/include/psci.h, lib/realm/include/smc-rsi.h and smc-rmi.h: function
-- identifiers.
use acai_rmm.Common.{ℕ, ◌+◌, ◌-◌, ◌*◌, ◌^◌, Bool, ◌&&◌, leb, ◌==◌, bit_and}

-- `SMC_UNKNOWN` as it is stored.
abbrev pub smc_unknown : ℕ
smc_unknown = 2 ^ 64 - 1

abbrev pub smccc_version_number : ℕ
smccc_version_number = 1 * 2 ^ 16 + 2

-- `SMC_GET_FIELD(_fid, FNUM)`
unfoldable pub smc_fnum : ℕ → ℕ
smc_fnum fid = bit_and fid 0xffff

-- `IS_SMC64_FID_STD_FAST` and `IS_SMC32_FID_STD_FAST`; the mask is 32 bits wide.
unfoldable pub is_smc64_fid_std_fast : ℕ → Bool
is_smc64_fid_std_fast fid = bit_and fid 0xffff0000 == 1 * 2 ^ 30 + 1 * 2 ^ 31 + 4 * 2 ^ 24

unfoldable pub is_smc32_fid_std_fast : ℕ → Bool
is_smc32_fid_std_fast fid = bit_and fid 0xffff0000 == 0 * 2 ^ 30 + 1 * 2 ^ 31 + 4 * 2 ^ 24

unfoldable pub fnum_in_range : ℕ → ℕ → ℕ → Bool
unfolding smc_fnum
fnum_in_range min max fid = leb min (smc_fnum fid) && leb (smc_fnum fid) max

unfoldable pub is_smc64_rmi_fid : ℕ → Bool
unfolding is_smc64_fid_std_fast fnum_in_range
is_smc64_rmi_fid fid = is_smc64_fid_std_fast fid && fnum_in_range 0x150 0x169 fid

unfoldable pub is_smc64_rsi_fid : ℕ → Bool
unfolding is_smc64_fid_std_fast fnum_in_range
is_smc64_rsi_fid fid = is_smc64_fid_std_fast fid && fnum_in_range 0x190 0x1af fid

unfoldable pub is_smc32_psci_fid : ℕ → Bool
unfolding is_smc32_fid_std_fast fnum_in_range
is_smc32_psci_fid fid = is_smc32_fid_std_fast fid && fnum_in_range 0 0x14 fid

unfoldable pub is_smc64_psci_fid : ℕ → Bool
unfolding is_smc64_fid_std_fast fnum_in_range
is_smc64_psci_fid fid = is_smc64_fid_std_fast fid && fnum_in_range 0 0x14 fid

-- `SMC64_RSI_FID` and `SMC64_RMI_FID`
abbrev pub smc64_rsi_fid : ℕ → ℕ
smc64_rsi_fid offset = 0xc4000000 + (0x190 + offset)

abbrev pub smc64_rmi_fid : ℕ → ℕ
smc64_rmi_fid offset = 0xc4000000 + (0x150 + offset)

abbrev pub smc_rsi_abi_version : ℕ
smc_rsi_abi_version = smc64_rsi_fid 0x0

abbrev pub smc_rsi_measurement_read : ℕ
smc_rsi_measurement_read = smc64_rsi_fid 0x2

abbrev pub smc_rsi_measurement_extend : ℕ
smc_rsi_measurement_extend = smc64_rsi_fid 0x3

abbrev pub smc_rsi_attest_token_init : ℕ
smc_rsi_attest_token_init = smc64_rsi_fid 0x4

abbrev pub smc_rsi_attest_token_continue : ℕ
smc_rsi_attest_token_continue = smc64_rsi_fid 0x5

abbrev pub smc_rsi_realm_config : ℕ
smc_rsi_realm_config = smc64_rsi_fid 0x6

abbrev pub smc_rsi_ipa_state_set : ℕ
smc_rsi_ipa_state_set = smc64_rsi_fid 0x7

abbrev pub smc_rsi_ipa_state_get : ℕ
smc_rsi_ipa_state_get = smc64_rsi_fid 0x8

abbrev pub smc_rsi_host_call : ℕ
smc_rsi_host_call = smc64_rsi_fid 0x9

abbrev pub smc_rsi_dev_mem : ℕ
smc_rsi_dev_mem = smc64_rsi_fid 0xa

abbrev pub smc_request_device_ownership : ℕ
smc_request_device_ownership = smc64_rsi_fid 0xb

abbrev pub smc_trigger_testengine : ℕ
smc_trigger_testengine = smc64_rsi_fid 0xc
