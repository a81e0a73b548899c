-- ===== src/Rmi/Rtt/Validate.antt =====
-- runtime/rmi/rtt.c: the checks on the address and the level that the host passes, and the inline
-- functions of lib/realm/include/realm.h that they call.
use acai_rmm.Common.{ℕ, ◌+◌, ◌/◌, Bool, true, false, ◌||◌, ltb, leb, not, if◌then◌else◌}
use acai_rmm.State.{Rd}
use acai_rmm.S2tt.Level.{rtt_page_level, rtt_min_block_level, addr_is_level_aligned, shift_left}

unfoldable pub realm_ipa_size : Rd → ℕ
unfolding shift_left
realm_ipa_size rd = shift_left 1 rd.s2_ctx.ipa_bits

unfoldable pub realm_par_size : Rd → ℕ
unfolding realm_ipa_size
realm_par_size rd = realm_ipa_size rd / 2

unfoldable pub addr_in_par : Rd → ℕ → Bool
unfolding realm_par_size
addr_in_par rd addr = ltb addr (realm_par_size rd)

unfoldable pub validate_map_addr : ℕ → ℕ → Rd → Bool
unfolding realm_ipa_size
validate_map_addr map_addr level rd =
    if leb (realm_ipa_size rd) map_addr
    then false
    else if not (addr_is_level_aligned map_addr level)
    then false
    else true

unfoldable pub validate_rtt_structure_cmds : ℕ → ℕ → Rd → Bool
validate_rtt_structure_cmds map_addr level rd =
    if ltb level (rd.s2_ctx.s2_starting_level + 1) || ltb rtt_page_level level
    then false
    else validate_map_addr map_addr level rd

unfoldable pub validate_rtt_map_cmds : ℕ → ℕ → Rd → Bool
validate_rtt_map_cmds map_addr level rd =
    if ltb level rtt_min_block_level || ltb rtt_page_level level
    then false
    else validate_map_addr map_addr level rd

unfoldable pub validate_rtt_entry_cmds : ℕ → ℕ → Rd → Bool
validate_rtt_entry_cmds map_addr level rd =
    if ltb level rd.s2_ctx.s2_starting_level || ltb rtt_page_level level
    then false
    else validate_map_addr map_addr level rd
