-- ===== src/Rmi/Realm/Params.antt =====
-- runtime/rmi/realm.c and runtime/rmi/feature.c: the parameters with which a realm is created.
use acai_rmm.Common.{
  Option, none, some, ℕ, ◌+◌, ◌-◌, ◌*◌, ◌/◌, ◌%◌, ◌^◌, Bool, true, false, not, ◌&&◌, ◌||◌, ltb, leb,
  ◌==◌, ◌!=◌, if◌then◌else◌, bit_and, bit_or,
}
use acai_rmm.Status.{rmi_success, rmi_error_input}
use acai_rmm.State.{Platform, Command, pure}
use acai_rmm.S2tt.Level.{granule_shift, rtt_page_level, min_starting_level, s2tte_stride}
use acai_rmm.Vmid.{vmid_reserve}

-- `struct rmi_realm_params`
pub record RealmParams : Type 0 where
  pub features_0 : ℕ
  pub hash_algo : ℕ
  pub rpv : ℕ
  pub vmid : ℕ
  pub rtt_base : ℕ
  pub rtt_level_start : ℕ
  pub rtt_num_start : ℕ

abbrev pub min_ipa_bits : ℕ
min_ipa_bits = 32

abbrev pub max_ipa_bits : ℕ
max_ipa_bits = 48

-- `EXTRACT` of the two fields of feature register 0.
unfoldable pub feature_s2sz : ℕ → ℕ
feature_s2sz value = bit_and value (2 ^ 8 - 1) / 2 ^ 0

unfoldable pub feature_lpa2 : ℕ → ℕ
feature_lpa2 value = bit_and value ((2 ^ 1 - 1) * 2 ^ 8) / 2 ^ 8

unfoldable pub get_feature_register_0 : Platform → ℕ
get_feature_register_0 plat =
    let s2sz = plat.pa_width * 2 ^ 0 in
    let lpa2 = if plat.lpa2_4k_present then bit_or s2sz (1 * 2 ^ 8) else s2sz in
    bit_or (bit_or lpa2 (1 * 2 ^ 28)) (1 * 2 ^ 29)

-- The registers of `struct smc_result`; the second is set for register 0 alone.
pub record FeatureResult : Type 0 where
  pub x0 : ℕ
  pub x1 : Option ℕ

unfoldable pub smc_read_feature_register : Platform → ℕ → FeatureResult
unfolding get_feature_register_0
smc_read_feature_register plat index =
    if index == 0
    then record { x0 = rmi_success; x1 = some (get_feature_register_0 plat) }
    else record { x0 = rmi_error_input; x1 = none }

unfoldable pub validate_feature_register_0 : Platform → ℕ → Bool
unfolding feature_s2sz feature_lpa2 get_feature_register_0
validate_feature_register_0 plat value =
    if ltb (feature_s2sz value) 32
      || ltb (feature_s2sz (get_feature_register_0 plat)) (feature_s2sz value)
    then false
    else if feature_lpa2 value == 1 && not plat.lpa2_4k_present
    then false
    else true

-- The arithmetic is on 32 bits; a starting level that was checked keeps it in range.
unfoldable pub s2_inconsistent_sl : ℕ → ℕ → Bool
s2_inconsistent_sl ipa_bits sl =
    let levels = (rtt_page_level + 2 ^ 32 - sl) % 2 ^ 32 in
    let sl_min_ipa_bits = (levels * s2tte_stride + granule_shift + 1) % 2 ^ 32 in
    let sl_max_ipa_bits = (sl_min_ipa_bits + (s2tte_stride - 1) + 4) % 2 ^ 32 in
    ltb ipa_bits sl_min_ipa_bits || ltb sl_max_ipa_bits ipa_bits

unfoldable pub validate_ipa_bits_and_sl : Platform → ℕ → ℕ → Bool
unfolding s2_inconsistent_sl
validate_ipa_bits_and_sl plat ipa_bits sl =
    if ltb ipa_bits min_ipa_bits || ltb max_ipa_bits ipa_bits
    then false
    else if ltb sl min_starting_level || ltb rtt_page_level sl
    then false
    else if sl == 0 && ltb plat.pa_width 44
    then false
    else not (s2_inconsistent_sl ipa_bits sl)

unfoldable pub requested_ipa_bits : RealmParams → ℕ
unfolding feature_s2sz
requested_ipa_bits p = feature_s2sz p.features_0

unfoldable pub s2_num_root_rtts : ℕ → ℕ → ℕ
s2_num_root_rtts ipa_bits sl =
    let levels = (rtt_page_level + 2 ^ 32 - sl) % 2 ^ 32 in
    let sl_ipa_bits = (levels * s2tte_stride + granule_shift + s2tte_stride) % 2 ^ 32 in
    if leb ipa_bits sl_ipa_bits then 1 else 2 ^ ((ipa_bits - sl_ipa_bits) % 32) % 2 ^ 32

abbrev pub rmi_hash_algo_sha256 : ℕ
rmi_hash_algo_sha256 = 0

abbrev pub rmi_hash_algo_sha512 : ℕ
rmi_hash_algo_sha512 = 1

-- The checks are made in the order of the source; the last one reserves the VMID.
unfoldable pub validate_realm_params : Platform → RealmParams → Command Bool
unfolding validate_feature_register_0 validate_ipa_bits_and_sl requested_ipa_bits s2_num_root_rtts
validate_realm_params plat p =
    if not (validate_feature_register_0 plat p.features_0)
    then pure false
    else if not (validate_ipa_bits_and_sl plat (requested_ipa_bits p) p.rtt_level_start)
    then pure false
    else if s2_num_root_rtts (requested_ipa_bits p) p.rtt_level_start != p.rtt_num_start
    then pure false
    else if not (p.hash_algo == rmi_hash_algo_sha256 || p.hash_algo == rmi_hash_algo_sha512)
    then pure false
    else vmid_reserve plat p.vmid
