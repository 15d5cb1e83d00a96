-- ===== src/Dict/Typed/Trip.antt =====
-- Numbers that go into a value and come out again.
use lz_lib.Base.{
  Option, ◌%◌, inr, inl, Bool-cases, length-append, ℕ, ◌+◌, ◌-◌, ◌^◌, ◌<◌, ◌≤◌, ◌≡◌, ◌≢◌, refl, ap,
  ◌∙◌, some, List, [], ◌∷◌, ◌++◌, All, length, ltb, take, if◌then◌else◌, u32, ok, arith,
}
use mathlib.Core.List.{append_assoc}
use lz_lib.Base.Int.{ℤ, pos, negsuc}
use lz_lib.CommonUtils.{Libc}
use lz_lib.CommonUtils.Numbers.{wrap}
use lz_lib.CommonUtils.Numbers.Laws.{Within}
use lz_lib.Dict.Store.{Heap, Data, put, blank_data, get_new_data, calloc}
use lz_lib.Dict.Wire.{copy_bytes}
use lz_lib.Dict.Typed.{
  int_to_data, data_from_int8, data_from_int16, data_from_int32, data_from_int64, data_from_number,
  c_string, copied, low_bits, data_to_int64, data_to_int32, data_to_int16, data_to_int8,
  data_to_uint64, data_to_uint32, data_to_uint16,
}

-- What the C library reads back of the digits of a number: `strtol` the number, up to the ends of its type, and
-- `strtoul` its pattern of 64 bits.
pub record Decimal (print : ℤ → List ℕ) (libc : Libc) : Type 0 where
  pub digits : (v : ℤ) → All (λ b. b ≢ 0) (print v) × (length (print v) < 100)
  pub long : (v : ℤ) → Within (2 ^ 63) v → (libc.strtol (print v) 0).value ≡ v
  pub long_long : (v : ℤ) → Within (2 ^ 63) v → (libc.strtoll (print v) 0).value ≡ v
  pub long_long_end :
      (n : ℕ) → 2 ^ 63 ≤ n → n < 2 ^ 64 → (libc.strtoll (print (pos n)) 0).value ≡ pos (2 ^ 63 - 1)
  pub long_end :
      (n : ℕ) → 2 ^ 63 ≤ n → n < 2 ^ 64 → (libc.strtol (print (pos n)) 0).value ≡ pos (2 ^ 63 - 1)
  pub unsigned_long :
      (v : ℤ) → Within (2 ^ 63) v → (libc.strtoul (print v) 0).value ≡ low_bits (2 ^ 64) v
  pub unsigned_long_long :
      (v : ℤ) → Within (2 ^ 63) v → (libc.strtoull (print v) 0).value ≡ low_bits (2 ^ 64) v

c_string-text : (s rest : List ℕ) → All (λ b. b ≢ 0) s → c_string (s ++ (0 ∷ rest)) ≡ s
unfolding c_string
c_string-text [] rest h = ground arith
c_string-text (b ∷ s) rest h = let first : b ≢ 0 = h.0 in ground (arith, c_string-text s rest h.1)

take-all : (s : List ℕ) → take (length s) s ≡ s
take-all [] = refl
take-all (b ∷ s) = ap (λ t. b ∷ t) (take-all s)

wrap-low_bits : (v : ℤ) → Within (2 ^ 63) v → wrap (2 ^ 63) (pos (low_bits (2 ^ 64) v)) ≡ v
unfolding wrap low_bits
wrap-low_bits (pos n) h = ground arith
wrap-low_bits (negsuc n) h = ground arith

wrap-low_bits32 : (v : ℤ) → wrap (2 ^ 31) (pos (low_bits (2 ^ 64) v)) ≡ wrap (2 ^ 31) v
unfolding wrap low_bits
wrap-low_bits32 (pos n) =
    let e : n % 2 ^ 64 % 2 ^ 32 ≡ n % 2 ^ 32 = omega arith in
    ap (λ r. if ltb r (2 ^ 31) then pos r else negsuc (2 ^ 32 - r - 1)) e
wrap-low_bits32 (negsuc n) = ground arith

wrap-narrow : (m : ℕ) (v : ℤ) → 0 < m → m ≤ 2 ^ 63 → Within (2 ^ 63) (wrap m v)
unfolding wrap
wrap-narrow m (pos n) some_bits h =
    let low : n % (m + m) < m + m = ground arith in
    elim (Bool-cases (ltb (n % (m + m)) m)) [
      | inl e ↦ rw e (ground arith)
      | inr e ↦ rw e (ground arith)
    ]
wrap-narrow m (negsuc n) some_bits h =
    let low : n % (m + m) < m + m = ground arith in
    elim (Bool-cases (ltb (n % (m + m)) m)) [
      | inl e ↦ rw e (ground arith)
      | inr e ↦ rw e (ground arith)
    ]

-- The value that holds the digits of a number.
abbrev pub printed : (ℤ → List ℕ) → ℤ → Data
printed print v = record blank_data {
  bytes = some (print v ++ (0 ∷ []));
  len = u32 (length (print v) + 1);
}

copied-printed :
    (print : ℤ → List ℕ) (v : ℤ)
    → All (λ b. b ≢ 0) (print v)
    → length (print v) < 100
    → copied (printed print v) ≡ ok (print v)
unfolding copied copy_bytes
copied-printed print v h small =
    let s = print v ++ (0 ∷ []) in
    let len : length s ≡ length (print v) + 1 = length-append (print v) (0 ∷ []) in
    let n : u32 (length (print v) + 1) ≡ length s = ground (arith, len) in
    let whole : take (length s) s ≡ s = take-all s in
    let text : c_string (s ++ (0 ∷ [])) ≡ print v =
      ap c_string (append_assoc (print v) (0 ∷ []) (0 ∷ [])) ∙ c_string-text (print v) (0 ∷ []) h in
    rw n (ground (arith, whole, text, len))

module _ (print : ℤ → List ℕ) (libc : Libc) (h : Heap) where
  -- The new object and the heap behind it, where there is room for the value and for its text.
  data_from_number-printed :
      (v : ℤ)
      → 2 ≤ h.room
      → (h' : Heap) × (data_from_number print h v ≡ (some h.next, h'))
        × (h'.objects h.next ≡ some (printed print v))
  unfolding data_from_number get_new_data calloc
  data_from_number-printed v room =
      let h1 : Heap = record h { next = h.next + 1; room = h.room - 1 - 1 } in
      (
        put (put h1 h.next (some blank_data)) h.next (some (printed print v)),
        ground arith,
        ground arith,
      )

  -- A new value that the four signed functions read as the number, converted to their types.
  abbrev pub MakesSigned : Option ℕ × Heap → ℤ → Type 0
  MakesSigned made u =
      (h' : Heap) × (made ≡ (some h.next, h'))
      × (data_to_int64 libc (h'.objects h.next) ≡ ok u)
      × (data_to_int32 libc (h'.objects h.next) ≡ ok (wrap (2 ^ 31) u))
      × (data_to_int16 libc (h'.objects h.next) ≡ ok (wrap (2 ^ 15) u))
      × (data_to_int8 libc (h'.objects h.next) ≡ ok (wrap (2 ^ 7) u))

  -- A new value that the three unsigned functions read as the number, cut to their types.
  abbrev pub MakesUnsigned : Option ℕ × Heap → ℕ → Type 0
  MakesUnsigned made n =
      (h' : Heap) × (made ≡ (some h.next, h'))
      × (data_to_uint64 libc (h'.objects h.next) ≡ ok n)
      × (data_to_uint32 libc (h'.objects h.next) ≡ ok (n % 2 ^ 32))
      × (data_to_uint16 libc (h'.objects h.next) ≡ ok (n % 2 ^ 16))

  module _ (c : Decimal print libc) (room : 2 ≤ h.room) where
    number-MakesSigned : (u : ℤ) → Within (2 ^ 63) u → MakesSigned (data_from_number print h u) u
    unfolding data_to_int64 data_to_int32 data_to_int16 data_to_int8
    number-MakesSigned u w =
        let (h', run, there) = data_from_number-printed u room in
        let text = copied-printed print u (c.digits u).0 (c.digits u).1 in
        (
          h',
          run,
          rw (there, text, c.unsigned_long_long u w) (ap ok (wrap-low_bits u w)),
          rw (there, text, c.unsigned_long u w) (ap ok (wrap-low_bits32 u)),
          rw (there, text, c.long u w) refl,
          rw (there, text, c.long u w) refl,
        )

  -- A value made from a 64-bit number by any of the signed functions, where there is room for the value and its text, and
  -- read back, with a C library that reads decimal digits. `data_from_int64` and `int_to_data` store the number, and
  -- `data_from_int32`, `data_from_int16` and `data_from_int8` the number converted to their type. Of what is stored,
  -- `data_to_int64` gives the number, and `data_to_int32`, `data_to_int16` and `data_to_int8` give it converted to their
  -- type.
  pub data_to_int64-data_from_int64 :
      (v : ℤ)
      → Decimal print libc
      → 2 ≤ h.room
      → Within (2 ^ 63) v
      → MakesSigned (data_from_int64 print h v) v
        × MakesSigned (int_to_data print h v) v
        × MakesSigned (data_from_int32 print h v) (wrap (2 ^ 31) v)
        × MakesSigned (data_from_int16 print h v) (wrap (2 ^ 15) v)
        × MakesSigned (data_from_int8 print h v) (wrap (2 ^ 7) v)
  unfolding data_from_int64 int_to_data data_from_int32 data_from_int16 data_from_int8
  data_to_int64-data_from_int64 v c room w = (
    number-MakesSigned c room v w,
    number-MakesSigned c room v w,
    number-MakesSigned c room (wrap (2 ^ 31) v)
        (wrap-narrow (2 ^ 31) v (omega arith) (omega arith)),
    number-MakesSigned c room (wrap (2 ^ 15) v)
        (wrap-narrow (2 ^ 15) v (omega arith) (omega arith)),
    number-MakesSigned c room (wrap (2 ^ 7) v) (wrap-narrow (2 ^ 7) v (omega arith) (omega arith)),
  )
