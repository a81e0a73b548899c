-- ===== src/Status/Laws.antt =====
-- lib/realm/include/status.h: what `pack_return_code` puts into a register, `unpack_return_code` takes out.
use acai_rmm.Common.{
  ℕ, ◌^◌, ◌*◌, ◌+◌, ◌<◌, ◌≡◌, arith, bit_or_split, zero-bit_or, bit_or-zero, bit_and_ones,
}
use acai_rmm.State.{Rmm, done}
use acai_rmm.Status.{pack_return_code, unpack_return_code}

-- For a status and an index of one byte, `pack_return_code` returns, and `unpack_return_code` gives
-- both back.
pub unpack-pack :
    (status index : ℕ) (s : Rmm)
    → status < 2 ^ 8
    → index < 2 ^ 8
    → (r : ℕ) × (pack_return_code status index s ≡ done r s)
      × (unpack_return_code r ≡ record { status = status; index = index })
unfolding pack_return_code unpack_return_code
unpack-pack status index s h k = (
  index * 2 ^ 8 + status,
  ground (arith, h, k, bit_or_split 8 status 0 0 index, zero-bit_or index, bit_or-zero status),
  ground (arith, bit_and_ones 8 (index * 2 ^ 8 + status)),
)
