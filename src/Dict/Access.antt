-- ===== src/Dict/Access.antt =====
-- `dict_get_int32`, `dict_set_int32` and their relatives of src/dict.c: numbers by key.
--
-- The pointer for the result is NULL or not; the key and the dictionary may be NULL.
pub mod Laws
use lz_lib.Base.{
  ℕ, ◌+◌, ◌-◌, ◌%◌, ◌^◌, Bool, true, false, Option, none, some, List, ◌==◌, if◌then◌else◌, Run, ok,
  fault, bad_access, ◌>>=◌,
}
use lz_lib.Base.Int.{ℤ, pos, negsuc}
use lz_lib.CommonUtils.{Converted, Libc}
use lz_lib.CommonUtils.Numbers.{wrap}
use lz_lib.Dict.Store.{Heap, Data, data_unref}
use lz_lib.Dict.Table.{Dict, dict_get_with_ref, dict_set}
use lz_lib.Dict.Typed.{
  copied, low_bits, data_from_int64, data_from_int32, data_from_int16, data_from_int8,
  data_from_uint64, data_from_uint32, data_from_uint16,
}

module _ {A B : Type 0} where
  -- The body of `_data_to_int8` and its relatives: the return value, and what is stored in `*val`.
  unfoldable pub checked : (List ℕ → Converted A) → (A → B) → Option Data → Run (ℤ × Option B)
  unfolding copied
  checked convert cast none = ok (negsuc 21, none)
  checked convert cast (some d) = copied d >>= λ str.
      let c = convert str in
      ok (if c.errno == 0 then pos 0 else negsuc (c.errno - 1), some (cast c.value))

module _ {B : Type 0} where
  -- What `dict_get_int8` and its relatives do once they have the value and a reference.
  unfoldable pub convert_and_unref :
      (Option Data → Run (ℤ × Option B)) → ℕ → Heap → Run (ℤ × Option B × Heap)
  unfolding data_unref
  convert_and_unref data_to p h =
      data_to (h.objects p) >>= λ r. data_unref h p >>= λ h'. ok (r.0, r.1, h')

  -- The body of `dict_get_int8` and its relatives, by the conversion that they call.
  unfoldable pub get_number :
      (Option Data → Run (ℤ × Option B))
      → Heap
      → Option Dict
      → Option (List ℕ)
      → Bool
      → Run (ℤ × Option B × Heap)
  unfolding convert_and_unref dict_get_with_ref
  get_number data_to h this key true = ok (negsuc 21, none, h)
  get_number data_to h this key false = dict_get_with_ref h this key >>= λ found. elim found.1 [
    | none ↦ ok (found.0, none, found.2)
    | some p ↦ convert_and_unref data_to p found.2
  ]

-- The body of `dict_set_int8` and its relatives, of the value made from the number.  A value that `dict_set` does not take
-- is not freed.
unfoldable pub set_number :
    (ℕ → List ℕ) → Option ℕ × Heap → Option Dict → Option (List ℕ) → Run (ℤ × Heap × Option Dict)
unfolding dict_set
set_number ref_name (none, h) this key = ok (negsuc 21, h, this)
set_number ref_name (some p, h) this key = dict_set ref_name h this key (some p)

module _ (libc : Libc) where
  unfoldable pub to_int8 : Option Data → Run (ℤ × Option ℤ)
  unfolding checked wrap
  to_int8 = checked (λ s. libc.strtol s 0) (wrap (2 ^ 7))

  unfoldable pub to_int16 : Option Data → Run (ℤ × Option ℤ)
  unfolding checked wrap
  to_int16 = checked (λ s. libc.strtol s 0) (wrap (2 ^ 15))

  unfoldable pub to_int32 : Option Data → Run (ℤ × Option ℤ)
  unfolding checked wrap
  to_int32 = checked (λ s. libc.strtol s 0) (wrap (2 ^ 31))

  unfoldable pub to_int64 : Option Data → Run (ℤ × Option ℤ)
  unfolding checked wrap
  to_int64 = checked (λ s. libc.strtoll s 0) (wrap (2 ^ 63))

  unfoldable pub to_uint16 : Option Data → Run (ℤ × Option ℕ)
  unfolding checked
  to_uint16 = checked (λ s. libc.strtoul s 0) (λ n. n % 2 ^ 16)

  unfoldable pub to_uint32 : Option Data → Run (ℤ × Option ℕ)
  unfolding checked
  to_uint32 = checked (λ s. libc.strtoul s 0) (λ n. n % 2 ^ 32)

  unfoldable pub to_uint64 : Option Data → Run (ℤ × Option ℕ)
  unfolding checked
  to_uint64 = checked (λ s. libc.strtoull s 0) (λ n. n % 2 ^ 64)

  unfoldable pub dict_get_int8 :
      Heap → Option Dict → Option (List ℕ) → Bool → Run (ℤ × Option ℤ × Heap)
  unfolding get_number to_int8
  dict_get_int8 = get_number to_int8

  unfoldable pub dict_get_int16 :
      Heap → Option Dict → Option (List ℕ) → Bool → Run (ℤ × Option ℤ × Heap)
  unfolding get_number to_int16
  dict_get_int16 = get_number to_int16

  unfoldable pub dict_get_int32 :
      Heap → Option Dict → Option (List ℕ) → Bool → Run (ℤ × Option ℤ × Heap)
  unfolding get_number to_int32
  dict_get_int32 = get_number to_int32

  unfoldable pub dict_get_int64 :
      Heap → Option Dict → Option (List ℕ) → Bool → Run (ℤ × Option ℤ × Heap)
  unfolding get_number to_int64
  dict_get_int64 = get_number to_int64

  unfoldable pub dict_get_uint16 :
      Heap → Option Dict → Option (List ℕ) → Bool → Run (ℤ × Option ℕ × Heap)
  unfolding get_number to_uint16
  dict_get_uint16 = get_number to_uint16

  unfoldable pub dict_get_uint32 :
      Heap → Option Dict → Option (List ℕ) → Bool → Run (ℤ × Option ℕ × Heap)
  unfolding get_number to_uint32
  dict_get_uint32 = get_number to_uint32

  unfoldable pub dict_get_uint64 :
      Heap → Option Dict → Option (List ℕ) → Bool → Run (ℤ × Option ℕ × Heap)
  unfolding get_number to_uint64
  dict_get_uint64 = get_number to_uint64

module _ (print : ℤ → List ℕ) (ref_name : ℕ → List ℕ) where
  unfoldable pub dict_set_int8 :
      Heap → Option Dict → Option (List ℕ) → ℤ → Run (ℤ × Heap × Option Dict)
  unfolding set_number data_from_int8
  dict_set_int8 h this key val = set_number ref_name (data_from_int8 print h val) this key

  unfoldable pub dict_set_int16 :
      Heap → Option Dict → Option (List ℕ) → ℤ → Run (ℤ × Heap × Option Dict)
  unfolding set_number data_from_int16
  dict_set_int16 h this key val = set_number ref_name (data_from_int16 print h val) this key

  unfoldable pub dict_set_int32 :
      Heap → Option Dict → Option (List ℕ) → ℤ → Run (ℤ × Heap × Option Dict)
  unfolding set_number data_from_int32
  dict_set_int32 h this key val = set_number ref_name (data_from_int32 print h val) this key

  unfoldable pub dict_set_int64 :
      Heap → Option Dict → Option (List ℕ) → ℤ → Run (ℤ × Heap × Option Dict)
  unfolding set_number data_from_int64
  dict_set_int64 h this key val = set_number ref_name (data_from_int64 print h val) this key

  unfoldable pub dict_set_uint16 :
      Heap → Option Dict → Option (List ℕ) → ℕ → Run (ℤ × Heap × Option Dict)
  unfolding set_number data_from_uint16
  dict_set_uint16 h this key val = set_number ref_name (data_from_uint16 print h val) this key

  unfoldable pub dict_set_uint32 :
      Heap → Option Dict → Option (List ℕ) → ℕ → Run (ℤ × Heap × Option Dict)
  unfolding set_number data_from_uint32
  dict_set_uint32 h this key val = set_number ref_name (data_from_uint32 print h val) this key

  unfoldable pub dict_set_uint64 :
      Heap → Option Dict → Option (List ℕ) → ℕ → Run (ℤ × Heap × Option Dict)
  unfolding set_number data_from_uint64
  dict_set_uint64 h this key val = set_number ref_name (data_from_uint64 print h val) this key
