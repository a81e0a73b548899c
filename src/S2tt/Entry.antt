-- ===== src/S2tt/Entry.antt =====
-- lib/realm/src/s2tt.c: the values of translation table entries, how they are made and read.
use acai_rmm.Common.{
  ℕ, ◌*◌, ◌-◌, ◌^◌, Bool, true, false, ◌&&◌, ◌||◌, not, bit_and, bit_or, ◌==◌, ◌!=◌, ltb, leb,
  if◌then◌else◌,
}
use acai_rmm.State.{Command, pure, ◌>>◌, assert}
use acai_rmm.Granule.Find.{granule_aligned}
use acai_rmm.S2tt.Level.{
  rtt_page_level, rtt_min_block_level, addr_level_mask, addr_is_level_aligned,
}

-- `enum ripas`
abbrev pub rmi_empty : ℕ
rmi_empty = 0

abbrev pub rmi_ram : ℕ
rmi_ram = 1

abbrev pub desc_type_mask : ℕ
desc_type_mask = 0x3

abbrev pub s2tte_l012_table : ℕ
s2tte_l012_table = 0x3

abbrev pub s2tte_l012_block : ℕ
s2tte_l012_block = 0x1

abbrev pub s2tte_l3_page : ℕ
s2tte_l3_page = 0x3

abbrev pub s2tte_lx_invalid : ℕ
s2tte_lx_invalid = 0x0

abbrev pub s2tte_memattr_mask : ℕ
s2tte_memattr_mask = 0x7 * 2 ^ 2

abbrev pub s2tte_memattr_fwb_normal_wb : ℕ
s2tte_memattr_fwb_normal_wb = bit_or (2 ^ 4) (2 * 2 ^ 2)

abbrev pub s2tte_memattr_fwb_reserved : ℕ
s2tte_memattr_fwb_reserved = bit_or (2 ^ 4) (0 * 2 ^ 2)

abbrev pub s2tte_ap_mask : ℕ
s2tte_ap_mask = 3 * 2 ^ 6

abbrev pub s2tte_ap_rw : ℕ
s2tte_ap_rw = 3 * 2 ^ 6

abbrev pub s2tte_sh_mask : ℕ
s2tte_sh_mask = 3 * 2 ^ 8

abbrev pub s2tte_sh_reserved : ℕ
s2tte_sh_reserved = 1 * 2 ^ 8

abbrev pub s2tte_sh_is : ℕ
s2tte_sh_is = 3 * 2 ^ 8

abbrev pub s2tte_af : ℕ
s2tte_af = 2 ^ 10

abbrev pub s2tte_xn : ℕ
s2tte_xn = 2 * 2 ^ 53

abbrev pub s2tte_ns : ℕ
s2tte_ns = 2 ^ 55

abbrev pub s2tte_attrs : ℕ
s2tte_attrs = bit_or (bit_or (bit_or s2tte_memattr_fwb_normal_wb s2tte_ap_rw) s2tte_sh_is) s2tte_af

abbrev pub s2tte_block : ℕ
s2tte_block = bit_or s2tte_attrs s2tte_l012_block

abbrev pub s2tte_page : ℕ
s2tte_page = bit_or s2tte_attrs s2tte_l3_page

abbrev pub s2tte_block_ns : ℕ
s2tte_block_ns = bit_or (bit_or (bit_or s2tte_ns s2tte_xn) s2tte_af) s2tte_l012_block

abbrev pub s2tte_page_ns : ℕ
s2tte_page_ns = bit_or (bit_or (bit_or s2tte_ns s2tte_xn) s2tte_af) s2tte_l3_page

abbrev pub hipas_mask : ℕ
hipas_mask = (2 ^ 4 - 1) * 2 ^ 2

abbrev pub hipas_unassigned : ℕ
hipas_unassigned = 0 * 2 ^ 2

abbrev pub hipas_assigned : ℕ
hipas_assigned = 1 * 2 ^ 2

abbrev pub hipas_destroyed : ℕ
hipas_destroyed = 2 * 2 ^ 2

abbrev pub ripas_mask : ℕ
ripas_mask = (2 ^ 1 - 1) * 2 ^ 6

abbrev pub ripas_empty : ℕ
ripas_empty = 0 * 2 ^ 6

abbrev pub ripas_ram : ℕ
ripas_ram = 1 * 2 ^ 6

unfoldable pub s2tte_create_ripas : ℕ → ℕ
s2tte_create_ripas ripas = if ripas == rmi_empty then ripas_empty else ripas_ram

unfoldable pub s2tte_create_unassigned : ℕ → ℕ
unfolding s2tte_create_ripas
s2tte_create_unassigned ripas = bit_or hipas_unassigned (s2tte_create_ripas ripas)

unfoldable pub s2tte_create_destroyed : ℕ
s2tte_create_destroyed = hipas_destroyed

unfoldable pub s2tte_create_assigned_empty : ℕ → ℕ → Command ℕ
s2tte_create_assigned_empty pa level = do
  assert (leb rtt_min_block_level level)
  assert (addr_is_level_aligned pa level)
  pure (bit_or (bit_or pa hipas_assigned) ripas_empty)

unfoldable pub s2tte_create_valid : ℕ → ℕ → Command ℕ
s2tte_create_valid pa level = do
  assert (leb rtt_min_block_level level)
  assert (addr_is_level_aligned pa level)
  pure (if level == rtt_page_level then bit_or pa s2tte_page else bit_or pa s2tte_block)

unfoldable pub s2tte_create_invalid_ns : ℕ
s2tte_create_invalid_ns = 0x0

unfoldable pub s2tte_create_valid_ns : ℕ → ℕ → Command ℕ
s2tte_create_valid_ns s2tte level = do
  assert (leb rtt_min_block_level level)
  pure (if level == rtt_page_level then bit_or s2tte s2tte_page_ns else bit_or s2tte s2tte_block_ns)

-- The fields of an unprotected entry that the host provides.
unfoldable pub host_ns_mask : ℕ → ℕ
host_ns_mask level =
    bit_or (bit_or (bit_or (addr_level_mask (2 ^ 64 - 1) level) s2tte_memattr_mask) s2tte_ap_mask)
      s2tte_sh_mask

unfoldable pub host_ns_s2tte_is_valid : ℕ → ℕ → Bool
unfolding host_ns_mask
host_ns_s2tte_is_valid s2tte level =
    if bit_and s2tte (2 ^ 64 - 1 - host_ns_mask level) != 0
    then false
    else if bit_and s2tte s2tte_memattr_mask == s2tte_memattr_fwb_reserved
    then false
    else if bit_and s2tte s2tte_sh_mask == s2tte_sh_reserved
    then false
    else true

unfoldable pub host_ns_s2tte : ℕ → ℕ → ℕ
unfolding host_ns_mask
host_ns_s2tte s2tte level = bit_and s2tte (host_ns_mask level)

unfoldable pub s2tte_create_table : ℕ → ℕ → Command ℕ
s2tte_create_table pa level = do
  assert (ltb level rtt_page_level)
  assert (granule_aligned pa)
  pure (bit_or pa s2tte_l012_table)

unfoldable pub s2tte_has_hipas : ℕ → ℕ → Bool
s2tte_has_hipas s2tte hipas =
    if bit_and s2tte desc_type_mask != s2tte_lx_invalid || bit_and s2tte hipas_mask != hipas
    then false
    else true

unfoldable pub s2tte_is_unassigned : ℕ → Bool
unfolding s2tte_has_hipas
s2tte_is_unassigned s2tte = s2tte_has_hipas s2tte hipas_unassigned

unfoldable pub s2tte_is_destroyed : ℕ → Bool
unfolding s2tte_has_hipas
s2tte_is_destroyed s2tte = s2tte_has_hipas s2tte hipas_destroyed

unfoldable pub s2tte_is_assigned : ℕ → ℕ → Bool
unfolding s2tte_has_hipas
s2tte_is_assigned s2tte level = s2tte_has_hipas s2tte hipas_assigned

-- The block case compares the two type bits with a whole block entry, as the source does.
unfoldable pub s2tte_check : ℕ → ℕ → ℕ → Bool
s2tte_check s2tte level ns =
    if bit_and s2tte s2tte_ns != ns
    then false
    else if (level == rtt_page_level && bit_and s2tte desc_type_mask == s2tte_l3_page)
        || (level == rtt_min_block_level && bit_and s2tte desc_type_mask == s2tte_block)
    then true
    else false

unfoldable pub s2tte_is_valid : ℕ → ℕ → Bool
unfolding s2tte_check
s2tte_is_valid s2tte level = s2tte_check s2tte level 0

unfoldable pub s2tte_is_valid_ns : ℕ → ℕ → Bool
unfolding s2tte_check
s2tte_is_valid_ns s2tte level = s2tte_check s2tte level s2tte_ns

unfoldable pub s2tte_is_table : ℕ → ℕ → Bool
s2tte_is_table s2tte level =
    if ltb level rtt_page_level && bit_and s2tte desc_type_mask == s2tte_l012_table
    then true
    else false

unfoldable pub s2tte_get_ripas : ℕ → Command ℕ
s2tte_get_ripas s2tte = do
  let desc_ripas = bit_and s2tte ripas_mask
  assert (not (bit_and s2tte desc_type_mask != s2tte_lx_invalid && desc_ripas != ripas_ram))
  pure (if desc_ripas == ripas_empty then rmi_empty else rmi_ram)

unfoldable pub s2tte_pa : ℕ → ℕ → Command ℕ
s2tte_pa s2tte level = do
  assert (not (s2tte_is_unassigned s2tte || s2tte_is_destroyed s2tte || s2tte_is_table s2tte level))
  pure (addr_level_mask s2tte level)

unfoldable pub s2tte_pa_table : ℕ → ℕ → Command ℕ
s2tte_pa_table s2tte level = do
  assert (s2tte_is_table s2tte level)
  pure (addr_level_mask s2tte rtt_page_level)

-- The walk's own helpers.
unfoldable pub table_entry_to_phys : ℕ → ℕ
table_entry_to_phys entry = addr_level_mask entry rtt_page_level

unfoldable pub entry_is_table : ℕ → Bool
entry_is_table entry = bit_and entry desc_type_mask == s2tte_l012_table
