-- ===== src/Rsi/Psci/Codes.antt =====
-- runtime/include/psci.h and lib/arch/include/arch.h: the codes of the power interface, and the reset
-- values of two registers.
use acai_rmm.Common.{ℕ, ◌-◌, ◌^◌}

abbrev pub psci_return_success : ℕ
psci_return_success = 0

abbrev pub psci_return_not_supported : ℕ
psci_return_not_supported = 2 ^ 64 - 1

abbrev pub psci_return_invalid_params : ℕ
psci_return_invalid_params = 2 ^ 64 - 2

abbrev pub psci_return_already_on : ℕ
psci_return_already_on = 2 ^ 64 - 4

abbrev pub psci_return_invalid_address : ℕ
psci_return_invalid_address = 2 ^ 64 - 9

abbrev pub psci_affinity_info_on : ℕ
psci_affinity_info_on = 0

abbrev pub psci_affinity_info_off : ℕ
psci_affinity_info_off = 1

-- The function identifiers.
abbrev pub smc32_psci_version : ℕ
smc32_psci_version = 0x84000000

abbrev pub smc32_psci_cpu_suspend : ℕ
smc32_psci_cpu_suspend = 0x84000001

abbrev pub smc64_psci_cpu_suspend : ℕ
smc64_psci_cpu_suspend = 0xc4000001

abbrev pub smc32_psci_cpu_off : ℕ
smc32_psci_cpu_off = 0x84000002

abbrev pub smc32_psci_cpu_on : ℕ
smc32_psci_cpu_on = 0x84000003

abbrev pub smc64_psci_cpu_on : ℕ
smc64_psci_cpu_on = 0xc4000003

abbrev pub smc32_psci_affinity_info : ℕ
smc32_psci_affinity_info = 0x84000004

abbrev pub smc64_psci_affinity_info : ℕ
smc64_psci_affinity_info = 0xc4000004

abbrev pub smc32_psci_system_off : ℕ
smc32_psci_system_off = 0x84000008

abbrev pub smc32_psci_system_reset : ℕ
smc32_psci_system_reset = 0x84000009

abbrev pub smc32_psci_features : ℕ
smc32_psci_features = 0x8400000a

abbrev pub smccc_version : ℕ
smccc_version = 0x80000000

-- `SPSR_EL2_MODE_EL1h` with the interrupts, aborts and debug exceptions masked.
abbrev pub reset_pstate : ℕ
reset_pstate = 0x3c5

abbrev pub sctlr_el1_flags : ℕ
sctlr_el1_flags = 0xc50878

abbrev pub sctlr_el1_ee : ℕ
sctlr_el1_ee = 2 ^ 25
