-- ===== src/S2tt/Table.antt =====
-- lib/realm/src/s2tt.c: a whole table is filled, and a whole table is looked through. A table is
-- the page of its granule, 512 entries long.
use acai_rmm.Common.{
  ℕ, zero, suc, ◌+◌, ◌-◌, ◌*◌, ◌%◌, ◌^◌, Bool, true, false, not, ◌&&◌, Option, none, some, ◌!=◌,
  if◌then◌else◌,
}
use acai_rmm.State.{Command, pure, ◌>>=◌, ◌>>◌, read_word, write_word}
use acai_rmm.S2tt.Level.{s2ttes_per_s2tt, s2tte_map_size, addr_is_level_aligned}
use acai_rmm.S2tt.Entry.{
  s2tte_create_unassigned, s2tte_create_destroyed, s2tte_create_assigned_empty, s2tte_create_valid,
  s2tte_create_valid_ns, s2tte_is_unassigned, s2tte_is_destroyed, s2tte_is_assigned, s2tte_is_valid,
  s2tte_is_valid_ns, s2tte_get_ripas, s2tte_pa,
}

-- `for (i = 0; i < S2TTES_PER_S2TT; i++) s2tt[i] = s2tte;` with `k` rounds left.
unfoldable pub fill_same : ℕ → ℕ → ℕ → ℕ → Command (Unit {0})
fill_same zero i s2tt s2tte = pure tt
fill_same (suc k) i s2tt s2tte = do write_word s2tt i s2tte; fill_same k (suc i) s2tt s2tte

unfoldable pub s2tt_init_unassigned : ℕ → ℕ → Command (Unit {0})
s2tt_init_unassigned s2tt ripas = fill_same s2ttes_per_s2tt 0 s2tt (s2tte_create_unassigned ripas)

unfoldable pub s2tt_init_destroyed : ℕ → Command (Unit {0})
s2tt_init_destroyed s2tt = fill_same s2ttes_per_s2tt 0 s2tt s2tte_create_destroyed

-- The loop that the three other functions share: the entry of each address, the next address.
unfoldable pub fill_block : (ℕ → ℕ → Command ℕ) → ℕ → ℕ → ℕ → ℕ → ℕ → Command (Unit {0})
fill_block create zero i s2tt pa level = pure tt
fill_block create (suc k) i s2tt pa level = do
  s2tte ← create pa level
  write_word s2tt i s2tte
  fill_block create k (suc i) s2tt ((pa + s2tte_map_size level) % 2 ^ 64) level

unfoldable pub s2tt_init_assigned_empty : ℕ → ℕ → ℕ → Command (Unit {0})
s2tt_init_assigned_empty s2tt pa level =
    fill_block s2tte_create_assigned_empty s2ttes_per_s2tt 0 s2tt pa level

unfoldable pub s2tt_init_valid : ℕ → ℕ → ℕ → Command (Unit {0})
s2tt_init_valid s2tt pa level = fill_block s2tte_create_valid s2ttes_per_s2tt 0 s2tt pa level

unfoldable pub s2tt_init_valid_ns : ℕ → ℕ → ℕ → Command (Unit {0})
s2tt_init_valid_ns s2tt pa level = fill_block s2tte_create_valid_ns s2ttes_per_s2tt 0 s2tt pa level

-- The RIPAS of an entry, where the caller asks for it (`ripas_ptr != NULL`).
unfoldable pub ripas_if : Bool → ℕ → Command ℕ
ripas_if true s2tte = s2tte_get_ripas s2tte
ripas_if false s2tte = pure 0

-- The loop of `__table_is_uniform_block` from entry `i` on, with `k` rounds left.
unfoldable pub uniform_from : (ℕ → Bool) → Bool → ℕ → ℕ → ℕ → ℕ → Command Bool
unfolding ripas_if
uniform_from is_x with_ripas ripas zero i table = pure true
uniform_from is_x with_ripas ripas (suc k) i table =
    let rest = uniform_from is_x with_ripas ripas k (suc i) table in
    (do
      s2tte ← read_word table i
      if not (is_x s2tte) then pure false else (do
        r ← ripas_if with_ripas s2tte
        if with_ripas && r != ripas then pure false else rest))

-- `none` is false; `some r` is true, with the RIPAS that is returned.
unfoldable pub table_is_uniform_block : (ℕ → Bool) → Bool → ℕ → Command (Option ℕ)
unfolding ripas_if
table_is_uniform_block is_x with_ripas table = do
  s2tte ← read_word table 0
  if not (is_x s2tte) then pure none else (do
    ripas ← ripas_if with_ripas s2tte
    uniform ← uniform_from is_x with_ripas ripas (s2ttes_per_s2tt - 1) 1 table
    pure (if uniform then some ripas else none))

unfoldable pub table_is_unassigned_block : ℕ → Command (Option ℕ)
table_is_unassigned_block table = table_is_uniform_block s2tte_is_unassigned true table

unfoldable pub table_is_destroyed_block : ℕ → Command (Option ℕ)
table_is_destroyed_block table = table_is_uniform_block s2tte_is_destroyed false table

-- The loop of `__table_maps_block` from entry `i` on, with `k` rounds left.
unfoldable pub maps_from : (ℕ → ℕ → Bool) → ℕ → ℕ → ℕ → ℕ → ℕ → Command Bool
maps_from is_x level base_pa zero i table = pure true
maps_from is_x level base_pa (suc k) i table =
    let rest = maps_from is_x level base_pa k (suc i) table in
    (do
      s2tte ← read_word table i
      if not (is_x s2tte level) then pure false else (do
        pa ← s2tte_pa s2tte level
        if pa != (base_pa + i * s2tte_map_size level) % 2 ^ 64 then pure false else rest))

unfoldable pub table_maps_block : (ℕ → ℕ → Bool) → ℕ → ℕ → Command Bool
table_maps_block is_x table level = do
  s2tte ← read_word table 0
  if not (is_x s2tte level) then pure false else (do
    base_pa ← s2tte_pa s2tte level
    if not (addr_is_level_aligned base_pa ((level + 2 ^ 64 - 1) % 2 ^ 64))
        then pure false
        else maps_from is_x level base_pa (s2ttes_per_s2tt - 1) 1 table)

unfoldable pub table_maps_assigned_block : ℕ → ℕ → Command Bool
table_maps_assigned_block table level = table_maps_block s2tte_is_assigned table level

unfoldable pub table_maps_valid_block : ℕ → ℕ → Command Bool
table_maps_valid_block table level = table_maps_block s2tte_is_valid table level

unfoldable pub table_maps_valid_ns_block : ℕ → ℕ → Command Bool
table_maps_valid_ns_block table level = table_maps_block s2tte_is_valid_ns table level
