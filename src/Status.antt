-- ===== src/Status.antt =====
-- lib/realm/include/status.h: the status codes and how a code and an index share a register.
pub mod Laws
use acai_rmm.Common.{ℕ, ◌*◌, ◌/◌, ◌%◌, ◌^◌, bit_or, bit_and, leb, ◌&&◌}
use acai_rmm.State.{Command, pure, ◌>>◌, assert}

abbrev pub rmi_success : ℕ
rmi_success = 0

abbrev pub rmi_error_input : ℕ
rmi_error_input = 1

abbrev pub rmi_error_realm : ℕ
rmi_error_realm = 2

abbrev pub rmi_error_rec : ℕ
rmi_error_rec = 3

abbrev pub rmi_error_rtt : ℕ
rmi_error_rtt = 4

abbrev pub rmi_error_in_use : ℕ
rmi_error_in_use = 5

-- `return_code_t`
pub record ReturnCode : Type 0 where
  pub status : ℕ
  pub index : ℕ

-- The shift is made on the 32 bits of `index`.
unfoldable pub pack_struct_return_code : ReturnCode → ℕ
pack_struct_return_code c = bit_or c.status (c.index * 2 ^ 8 % 2 ^ 32)

unfoldable pub pack_return_code : ℕ → ℕ → Command ℕ
unfolding pack_struct_return_code
pack_return_code status index = do
  assert (leb status 0xff && leb index 0xff)
  pure (pack_struct_return_code (record { status = status; index = index }))

unfoldable pub unpack_return_code : ℕ → ReturnCode
unpack_return_code error_code = record {
  status = bit_and error_code 0xff;
  index = error_code / 2 ^ 8 % 2 ^ 32;
}
