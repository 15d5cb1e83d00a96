-- ===== src/Dict/Typed.antt =====
-- The conversions between numbers and values of src/dict.c, by text.
--
-- `print` gives the decimal digits that `asprintf` writes; `strtol` and its relatives are those of
-- CommonUtils. `alloca` always has room.
pub mod Trip
mod Tests
use lz_lib.Base.{
  ℕ, ◌+◌, ◌-◌, ◌%◌, ◌^◌, Bool, Option, none, some, List, [], ◌∷◌, ◌++◌, length, ◌==◌, if◌then◌else◌,
  u32, Run, ok, fault, bad_access, ◌>>=◌,
}
use lz_lib.Base.Int.{ℤ, pos, negsuc}
use lz_lib.CommonUtils.{Converted, Libc}
use lz_lib.CommonUtils.Numbers.{wrap}
use lz_lib.Dict.Store.{Heap, Data, put, blank_data, get_new_data}
use lz_lib.Dict.Wire.{copy_bytes}

module _ (print : ℤ → List ℕ) where
  -- The body of `int_to_data` and of the `data_from_` functions for integers.  When `asprintf` fails, the new value is
  -- not freed.  An argument of a type narrower than 64 bits is converted to the type first.
  unfoldable pub data_from_number : Heap → ℤ → Option ℕ × Heap
  unfolding get_new_data
  data_from_number h value = elim (get_new_data h) [
    | none ↦ (none, h)
    | some (p, h') ↦ if h'.room == 0 then (none, h') else (
      some p,
      put (record h' { room = h'.room - 1 }) p
          (some (record blank_data {
            bytes = some (print value ++ (0 ∷ []));
            len = u32 (length (print value) + 1);
          })),
    )
  ]

  unfoldable pub int_to_data : Heap → ℤ → Option ℕ × Heap
  unfolding data_from_number
  int_to_data h value = data_from_number h value

  unfoldable pub data_from_int64 : Heap → ℤ → Option ℕ × Heap
  unfolding data_from_number
  data_from_int64 h value = data_from_number h value

  unfoldable pub data_from_int32 : Heap → ℤ → Option ℕ × Heap
  unfolding data_from_number wrap
  data_from_int32 h value = data_from_number h (wrap (2 ^ 31) value)

  unfoldable pub data_from_int16 : Heap → ℤ → Option ℕ × Heap
  unfolding data_from_number wrap
  data_from_int16 h value = data_from_number h (wrap (2 ^ 15) value)

  unfoldable pub data_from_int8 : Heap → ℤ → Option ℕ × Heap
  unfolding data_from_number wrap
  data_from_int8 h value = data_from_number h (wrap (2 ^ 7) value)

  unfoldable pub data_from_uint64 : Heap → ℕ → Option ℕ × Heap
  unfolding data_from_number
  data_from_uint64 h value = data_from_number h (pos value)

  unfoldable pub data_from_uint32 : Heap → ℕ → Option ℕ × Heap
  unfolding data_from_number
  data_from_uint32 h value = data_from_number h (pos (value % 2 ^ 32))

  unfoldable pub data_from_uint16 : Heap → ℕ → Option ℕ × Heap
  unfolding data_from_number
  data_from_uint16 h value = data_from_number h (pos (value % 2 ^ 16))

-- A buffer up to its first NUL.
unfoldable pub c_string : List ℕ → List ℕ
c_string [] = []
c_string (b ∷ rest) = let more = c_string rest in if b == 0 then [] else b ∷ more

-- The copy that the `data_to_` functions make of a value's bytes, with a NUL behind it.
unfoldable pub copied : Data → Run (List ℕ)
unfolding c_string copy_bytes
copied d = elim d.bytes [
  | none ↦ fault bad_access
  | some bytes ↦ copy_bytes bytes d.len >>= λ s. ok (c_string (s ++ (0 ∷ [])))
]

-- The number below m with the same low bits.
unfoldable pub low_bits : ℕ → ℤ → ℕ
low_bits m (pos n) = n % m
low_bits m (negsuc n) = m - 1 - n % m

module _ (libc : Libc) where
  unfoldable pub data_to_int64 : Option Data → Run ℤ
  unfolding copied wrap
  data_to_int64 none = ok (negsuc 0)
  data_to_int64 (some d) = copied d >>= λ s. ok (wrap (2 ^ 63) (pos (libc.strtoull s 0).value))

  unfoldable pub data_to_int32 : Option Data → Run ℤ
  unfolding copied wrap
  data_to_int32 none = ok (negsuc 0)
  data_to_int32 (some d) = copied d >>= λ s. ok (wrap (2 ^ 31) (pos (libc.strtoul s 0).value))

  unfoldable pub data_to_int16 : Option Data → Run ℤ
  unfolding copied wrap
  data_to_int16 none = ok (negsuc 0)
  data_to_int16 (some d) = copied d >>= λ s. ok (wrap (2 ^ 15) (libc.strtol s 0).value)

  unfoldable pub data_to_int8 : Option Data → Run ℤ
  unfolding copied wrap
  data_to_int8 none = ok (negsuc 0)
  data_to_int8 (some d) = copied d >>= λ s. ok (wrap (2 ^ 7) (libc.strtol s 0).value)

  unfoldable pub data_to_uint64 : Option Data → Run ℕ
  unfolding copied low_bits
  data_to_uint64 none = ok (2 ^ 64 - 1)
  data_to_uint64 (some d) = copied d >>= λ s. ok (low_bits (2 ^ 64) (libc.strtoll s 0).value)

  unfoldable pub data_to_uint32 : Option Data → Run ℕ
  unfolding copied low_bits
  data_to_uint32 none = ok (2 ^ 32 - 1)
  data_to_uint32 (some d) = copied d >>= λ s. ok (low_bits (2 ^ 32) (libc.strtol s 0).value)

  unfoldable pub data_to_uint16 : Option Data → Run ℕ
  unfolding copied low_bits
  data_to_uint16 none = ok (2 ^ 16 - 1)
  data_to_uint16 (some d) = copied d >>= λ s. ok (low_bits (2 ^ 16) (libc.strtol s 0).value)
