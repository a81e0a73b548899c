-- ===== src/Rsi/Interface.antt =====
-- lib/realm/include/smc-rsi.h, smc-rmi.h and realm.h: what the services return to the realm and to the
-- host.
use acai_rmm.Common.{
  ℕ, Bool, true, false, not, ◌&&◌, ◌+◌, ◌-◌, ◌/◌, ◌^◌, ◌%◌, if◌then◌else◌, leb, ltb, ◌==◌,
}
use acai_rmm.State.{Rec, Command, pure, ◌>>=◌, ◌>>◌, assert}
use acai_rmm.S2tt.Level.{shift_left}
use acai_rmm.Rmi.Realm.Create.{addr_is_contained}

abbrev pub rsi_success : ℕ
rsi_success = 0

abbrev pub rsi_error_input : ℕ
rsi_error_input = 1

abbrev pub rmi_exit_sync : ℕ
rmi_exit_sync = 0

abbrev pub rmi_exit_psci : ℕ
rmi_exit_psci = 3

abbrev pub rmi_exit_ripas_change : ℕ
rmi_exit_ripas_change = 4

-- The members of `struct rmi_rec_exit` that these services fill.
pub record RecExit : Type 0 where
  pub exit_reason : ℕ
  pub esr : ℕ
  pub far : ℕ
  pub hpfar : ℕ
  pub gprs : ℕ → ℕ
  pub ripas_base : ℕ
  pub ripas_size : ℕ
  pub ripas_value : ℕ
  pub imm : ℕ

-- `enum s2_walk_status`
pub data S2WalkStatus : Type 0 where
  walk_success walk_invalid_params walk_fail : S2WalkStatus

-- `struct s2_walk_result`
pub record S2WalkResult : Type 0 where
  pub pa : ℕ
  pub rtt_level : ℕ
  pub ripas : ℕ
  pub destroyed : Bool
  pub llt : ℕ

unfoldable pub s2_walk_result_match_ripas : S2WalkResult → ℕ → Bool
s2_walk_result_match_ripas res ripas = not res.destroyed && res.ripas == ripas

-- `struct rsi_walk_result`
pub record RsiWalkResult : Type 0 where
  pub abort : Bool
  pub rtt_level : ℕ

-- `struct rsi_walk_smc_result`, with the two registers that are used.
pub record RsiWalkSmcResult : Type 0 where
  pub walk_result : RsiWalkResult
  pub x0 : ℕ
  pub x1 : ℕ

abbrev pub to_realm : ℕ → ℕ → RsiWalkSmcResult
to_realm x0 x1 = record { walk_result = record { abort = false; rtt_level = 0 }; x0 = x0; x1 = x1 }

abbrev pub to_host : ℕ → RsiWalkSmcResult
to_host level = record { walk_result = record { abort = true; rtt_level = level }; x0 = 0; x1 = 0 }

unfoldable pub rec_ipa_size : Rec → ℕ
rec_ipa_size r = shift_left 1 r.realm_info.ipa_bits

unfoldable pub rec_par_size : Rec → ℕ
unfolding rec_ipa_size
rec_par_size r = rec_ipa_size r / 2

unfoldable pub addr_in_rec_par : Rec → ℕ → Bool
unfolding rec_par_size
addr_in_rec_par r addr = ltb addr (rec_par_size r)

unfoldable pub region_is_contained : ℕ → ℕ → ℕ → ℕ → Command Bool
region_is_contained container_base container_end region_base region_end = do
  assert (leb region_base ((region_end + 2 ^ 64 - 1) % 2 ^ 64))
  first ← addr_is_contained container_base container_end region_base
  if first
      then addr_is_contained container_base container_end ((region_end + 2 ^ 64 - 1) % 2 ^ 64)
      else pure false

unfoldable pub region_in_rec_par : Rec → ℕ → ℕ → Command Bool
unfolding region_is_contained rec_par_size
region_in_rec_par r base end = region_is_contained 0 (rec_par_size r) base end
