-- ===== src/CommonUtils/Numbers/Narrow.antt =====
-- The conversions of src/common-utils.c that test the range of the type they store.
use lz_lib.Base.{ℕ, ◌^◌, false, Option, List}
use lz_lib.Base.Int.{ℤ}
use lz_lib.CommonUtils.{Libc, Answer}
use lz_lib.CommonUtils.Numbers.{
  string2ulonglong, string2longlong, string2signed, string2unsigned, narrow_signed, narrow_unsigned,
}

module _ (libc : Libc) (str : Option (List ℕ)) (old : ℕ) where
  unfoldable pub lz_string2int8 : Answer ℤ
  unfolding string2signed narrow_signed
  lz_string2int8 = narrow_signed (2 ^ 7) (string2signed libc.strtol str false 0 old)

  unfoldable pub lz_string2int16 : Answer ℤ
  unfolding string2signed narrow_signed
  lz_string2int16 = narrow_signed (2 ^ 15) (string2signed libc.strtol str false 0 old)

  unfoldable pub lz_string2int32 : Answer ℤ
  unfolding string2signed narrow_signed
  lz_string2int32 = narrow_signed (2 ^ 31) (string2signed libc.strtol str false 0 old)

  unfoldable pub lz_string2int64 : Answer ℤ
  unfolding string2longlong narrow_signed
  lz_string2int64 = narrow_signed (2 ^ 63) (string2longlong libc str false 0 old)

  unfoldable pub lz_string2uint8 : Answer ℕ
  unfolding string2unsigned narrow_unsigned
  lz_string2uint8 = narrow_unsigned (2 ^ 8) (string2unsigned libc libc.strtoul str false 0 old)

  unfoldable pub lz_string2uint16 : Answer ℕ
  unfolding string2unsigned narrow_unsigned
  lz_string2uint16 = narrow_unsigned (2 ^ 16) (string2unsigned libc libc.strtoul str false 0 old)

  unfoldable pub lz_string2uint32 : Answer ℕ
  unfolding string2unsigned narrow_unsigned
  lz_string2uint32 = narrow_unsigned (2 ^ 32) (string2unsigned libc libc.strtoul str false 0 old)

  unfoldable pub lz_string2uint64 : Answer ℕ
  unfolding string2ulonglong narrow_unsigned
  lz_string2uint64 = narrow_unsigned (2 ^ 64) (string2ulonglong libc str false 0 old)

  unfoldable pub lz_string2uint8_base10 : Answer ℕ
  unfolding string2unsigned narrow_unsigned
  lz_string2uint8_base10 =
      narrow_unsigned (2 ^ 8) (string2unsigned libc libc.strtoul str false 10 old)

  unfoldable pub lz_string2uint16_base10 : Answer ℕ
  unfolding string2unsigned narrow_unsigned
  lz_string2uint16_base10 =
      narrow_unsigned (2 ^ 16) (string2unsigned libc libc.strtoul str false 10 old)

  unfoldable pub lz_string2uint32_base10 : Answer ℕ
  unfolding string2unsigned narrow_unsigned
  lz_string2uint32_base10 =
      narrow_unsigned (2 ^ 32) (string2unsigned libc libc.strtoul str false 10 old)

  unfoldable pub lz_string2uint64_base10 : Answer ℕ
  unfolding string2ulonglong narrow_unsigned
  lz_string2uint64_base10 = narrow_unsigned (2 ^ 64) (string2ulonglong libc str false 10 old)
