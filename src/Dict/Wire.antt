-- ===== src/Dict/Wire.antt =====
-- The serialized form of a dictionary: `dict_serialize` and `dict_unserialize` of src/dict.c.
--
-- A buffer is the list of its bytes. A pointer into it that the code computes is an integer, and a fault where
-- it is read outside. Words are in network order; the pointers of src/byte-order.h are set, and a call that has
-- still to set them gives the same word (ByteOrder/Laws). `little` is the byte order of the target.
pub mod Entries
pub mod Write
pub mod Read
pub mod Fill
pub mod Trip
pub mod Between
mod Tests
use lz_lib.Base.Int.{ℤ, pos, negsuc, ◌+ℤ◌, ltb_ℤ, eqb_ℤ, signed32}
use lz_lib.Base.{
  ℕ, zero, suc, ◌+◌, ◌*◌, ◌^◌, Bool, true, false, Option, none, some, List, [], ◌∷◌, ◌++◌, ◌==◌,
  ltb, leb, if◌then◌else◌, length, take, drop, replicate, u32, Run, ok, fault, bad_access, ◌>>=◌,
}
use lz_lib.ByteOrder.{byte_order_init, hton32}
use lz_lib.ByteOrder.Laws.{memory_bytes}
use lz_lib.Dict.Store.{Heap, Data, put, calloc, blank_data, get_new_data}
use lz_lib.Dict.Table.{Dict, Node, dict_set_key}

-- The loop over the iovecs of a value, with `left` of them left.
unfoldable pub vec_length : ℕ → List (List ℕ) → ℕ → Run ℕ
vec_length zero vec len = ok len
vec_length (suc left) [] len = fault bad_access
vec_length (suc left) (v ∷ vec) len = vec_length left vec (u32 (len + length v))

-- What a value adds to the length; none if its own length is negative. (`iov_len` has no sign.)
unfoldable pub value_length : Data → ℕ → Run (Option ℕ)
unfolding vec_length
value_length v len = elim v.vec [
  | some vec ↦ vec_length (if ltb v.len (2 ^ 31) then v.len else 0) vec len >>= λ l. ok (some l)
  | none ↦ if ltb v.len (2 ^ 31) then ok (some (u32 (len + v.len))) else ok none
]

-- The loop of `_dict_serialized_length`, with `count` pairs left.
unfoldable pub pairs_length : Heap → ℕ → List Node → ℕ → Run ℤ
unfolding value_length
pairs_length h zero ns len = ok (signed32 len)
pairs_length h (suc count) [] len = ok (negsuc 21)
pairs_length h (suc count) (n ∷ ns) len = elim (h.objects n.value) [
  | none ↦ fault bad_access
  | some v ↦ value_length v (u32 (len + 4 + 4 + length n.key + 1)) >>= λ l. elim l [
    | none ↦ ok (negsuc 21)
    | some len' ↦ pairs_length h count ns len'
  ]
]

-- `_dict_serialized_length` and `dict_serialized_length`: -EINVAL for no dictionary.
unfoldable pub serialized_length : Heap → Dict → Run ℤ
unfolding pairs_length
serialized_length h d =
    if ltb d.count (2 ^ 31) then pairs_length h d.count d.members_list 4 else ok (negsuc 21)

unfoldable pub dict_serialized_length : Heap → Option Dict → Run ℤ
unfolding serialized_length
dict_serialized_length h none = ok (negsuc 21)
dict_serialized_length h (some d) = serialized_length h d

-- `buf` while it moves through a buffer: what is behind it, and what is in front.
pub record Cursor : Type 0 where
  pub written : List ℕ
  pub left : List ℕ

-- `memcpy (buf, ...)`, and `buf` moved on.
unfoldable pub put_bytes : Cursor → List ℕ → Run Cursor
put_bytes c bytes =
    if leb (length bytes) (length c.left)
    then ok (record { written = c.written ++ bytes; left = drop (length bytes) c.left })
    else fault bad_access

-- The source of `memcpy (..., bytes, n)` for an `int32_t` n. A negative one is a size beyond any object.
unfoldable pub copy_bytes : List ℕ → ℕ → Run (List ℕ)
copy_bytes bytes n =
    if ltb n (2 ^ 31)
    then (if leb n (length bytes) then ok (take n bytes) else fault bad_access)
    else fault bad_access

-- The bytes in memory of `hton32 (n)`.
unfoldable pub net_bytes : Bool → ℕ → List ℕ
unfolding hton32
net_bytes little n = memory_bytes little (hton32 little (byte_order_init little) n).0

-- The loop of `_dict_serialize`, with `count` pairs left.
unfoldable pub serialize_pairs : Bool → Heap → ℕ → List Node → Cursor → Run (ℤ × Cursor)
unfolding put_bytes copy_bytes net_bytes
serialize_pairs little h zero ns c = ok (pos 0, c)
serialize_pairs little h (suc count) [] c = ok (negsuc 0, c)
serialize_pairs little h (suc count) (n ∷ ns) c = do
  c1 ← put_bytes c (net_bytes little (u32 (length n.key)))
  elim (h.objects n.value) [
    | none ↦ fault bad_access
    | some v ↦ do
      c2 ← put_bytes c1 (net_bytes little v.len)
      key ← copy_bytes n.key (u32 (length n.key))
      c3 ← put_bytes c2 key
      c4 ← put_bytes c3 (0 ∷ [])
      elim v.bytes [
        | none ↦ ok (negsuc 0, c4)
        | some bytes ↦ do
          value ← copy_bytes bytes v.len
          c5 ← put_bytes c4 value
          serialize_pairs little h count ns c5
      ]
  ]

-- `_dict_serialize` into a buffer: what it returns, and the buffer.
unfoldable pub serialize : Bool → Heap → Dict → List ℕ → Run (ℤ × List ℕ)
unfolding serialize_pairs put_bytes net_bytes
serialize little h d buf =
    if ltb d.count (2 ^ 31)
    then (put_bytes (record { written = []; left = buf }) (net_bytes little d.count) >>= λ c.
        serialize_pairs little h d.count d.members_list c >>= λ r.
        ok (r.0, r.1.written ++ r.1.left))
    else ok (negsuc 0, buf)

-- `dict_serialize`
unfoldable pub dict_serialize :
    Bool → Heap → Option Dict → Option (List ℕ) → Run (ℤ × Option (List ℕ))
unfolding serialize
dict_serialize little h none buf = ok (negsuc 0, buf)
dict_serialize little h (some d) none = ok (negsuc 0, none)
dict_serialize little h (some d) (some buf) = serialize little h d buf >>= λ r. ok (r.0, some r.1)

-- `dict_allocate_and_serialize`, with both pointers for the result given: what it returns, the buffer and its
-- length.
unfoldable pub dict_allocate_and_serialize :
    Bool → Heap → Option Dict → Run (ℤ × Option (List ℕ) × ℕ × Heap)
unfolding serialized_length serialize calloc
dict_allocate_and_serialize little h none = ok (negsuc 21, none, 0, h)
dict_allocate_and_serialize little h (some d) = serialized_length h d >>= λ size. elim size [
  | negsuc e ↦ ok (negsuc e, none, 0, h)
  | pos len ↦ elim (calloc h) [
    | none ↦ ok (negsuc 11, none, 0, h)
    | some (p, h') ↦ serialize little h' d (replicate len 0) >>= λ r. elim r.0 [
      | negsuc e ↦ ok (negsuc e, none, 0, h')
      | pos z ↦ ok (pos z, some r.1, len, h')
    ]
  ]
]

-- The bytes from a pointer on.
unfoldable pub bytes_at : List ℕ → ℤ → Run (List ℕ)
bytes_at buf (negsuc i) = fault bad_access
bytes_at buf (pos i) = if leb i (length buf) then ok (drop i buf) else fault bad_access

-- The number of four bytes in memory.
abbrev pub memory_word : Bool → ℕ → ℕ → ℕ → ℕ → ℕ
memory_word true a b c d = a + b * 2 ^ 8 + c * 2 ^ 16 + d * 2 ^ 24
memory_word false a b c d = d + c * 2 ^ 8 + b * 2 ^ 16 + a * 2 ^ 24

first_word : Bool → List ℕ → Run ℕ
unfolding hton32
first_word little (a ∷ b ∷ c ∷ d ∷ rest) =
    ok (hton32 little (byte_order_init little) (memory_word little a b c d)).0
first_word little bytes = fault bad_access

-- `memcpy (&hostord, buf, sizeof (hostord))` and `ntoh32 (hostord)`.
unfoldable pub read_word : Bool → List ℕ → ℤ → Run ℕ
unfolding first_word bytes_at
read_word little buf p = bytes_at buf p >>= first_word little

-- A string up to its NUL; one without is read past the end of the memory.
unfoldable pub until_nul : List ℕ → Run (List ℕ)
until_nul [] = fault bad_access
until_nul (b ∷ rest) =
    let more = until_nul rest in if b == 0 then ok [] else (more >>= λ key. ok (b ∷ key))

unfoldable pub read_string : List ℕ → ℤ → Run (List ℕ)
unfolding until_nul bytes_at
read_string buf p = bytes_at buf p >>= until_nul

-- What a `data` pointer into the buffer points to, as far as the value's length says.
unfoldable pub window : List ℕ → ℤ → ℕ → Option (List ℕ)
window buf (negsuc i) len = some []
window buf (pos i) len = some (take (if ltb len (2 ^ 31) then len else 0) (drop i buf))

-- `(buf + n) > (orig_buf + size)`
unfoldable pub beyond : ℤ → ℤ → ℤ → Bool
beyond size p n = ltb_ℤ size (p +ℤ n)

-- The new value of a round: `get_new_data`, and the assignments. Without memory the code writes through null.
unfoldable pub new_value : Heap → ℕ → Option (List ℕ) → Run (ℕ × Heap)
unfolding get_new_data
new_value h len bytes = elim (get_new_data h) [
  | none ↦ fault bad_access
  | some (p, h') ↦
      ok (p, put h' p (some (record blank_data { len = len; bytes = bytes; is_static = true })))
]

-- The loop of `dict_unserialize`, with `left` rounds left. Nothing looks at what `dict_set` returns.
unfoldable pub unserialize_pairs : Bool → List ℕ → ℤ → ℕ → ℤ → Heap → Dict → Run (ℤ × Heap × Dict)
unfolding read_word read_string window beyond new_value dict_set_key
unserialize_pairs little buf size zero p h d = ok (pos 0, h, d)
unserialize_pairs little buf size (suc left) p h d = elim (beyond size p (pos 4)) [
  | true ↦ ok (negsuc 0, h, d)
  | false ↦ read_word little buf p >>= λ keylen. elim (beyond size (p +ℤ pos 4) (pos 4)) [
    | true ↦ ok (negsuc 0, h, d)
    | false ↦ read_word little buf (p +ℤ pos 4) >>= λ vallen.
        let key_at = p +ℤ pos 4 +ℤ pos 4 in
        let value_at = key_at +ℤ (signed32 keylen +ℤ pos 1) in
        elim (beyond size key_at (signed32 keylen)) [
          | true ↦ ok (negsuc 0, h, d)
          | false ↦ elim (beyond size value_at (signed32 vallen)) [
            | true ↦ ok (negsuc 0, h, d)
            | false ↦ do
              v ← new_value h vallen (window buf value_at vallen)
              key ← read_string buf key_at
              r ← dict_set_key v.1 d key v.0
              unserialize_pairs little buf size left (value_at +ℤ signed32 vallen) r.1 r.2
          ]
        ]
  ]
]

-- `dict_unserialize`, of a pointer `fill` that is given; none is a null dictionary.
unfoldable pub dict_unserialize :
    Bool → Heap → Option (List ℕ) → ℤ → Option Dict → Run (ℤ × Heap × Option Dict)
unfolding unserialize_pairs read_word beyond
dict_unserialize little h none size fill = ok (negsuc 0, h, fill)
dict_unserialize little h (some buf) size none = ok (negsuc 0, h, none)
dict_unserialize little h (some buf) size (some d) = elim (eqb_ℤ size (pos 0)) [
  | true ↦ ok (negsuc 0, h, some d)
  | false ↦ elim (beyond size (pos 0) (pos 4)) [
    | true ↦ ok (negsuc 0, h, some d)
    | false ↦ read_word little buf (pos 0) >>= λ count. elim (ltb count (2 ^ 31)) [
      | false ↦ ok (negsuc 0, h, some d)
      | true ↦ unserialize_pairs little buf size count (pos 4) h (record d { count = 0 }) >>= λ r.
          ok (r.0, r.1, some r.2)
    ]
  ]
]
