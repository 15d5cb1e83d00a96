-- ===== src/Dict/Wire/Write.antt =====
-- The serialized length is the number of bytes that are written, and these are the bytes of the entries.
use mathlib.Core.List.{append_assoc, append-nil}
use lz_lib.Base.Int.{pos}
use lz_lib.Base.{
  ℕ, suc, ◌+◌, ◌-◌, ◌^◌, ◌≤◌, ◌<◌, ◌≡◌, refl, sym, ap, ◌∙◌, Bool, true, Option, some, List, [], ◌∷◌,
  ◌++◌, arith, length, take, drop, replicate, length-append, length-replicate, u32, ok, ◌>>=◌, ltb,
}
use lz_lib.Dict.Store.{Data, Heap}
use lz_lib.Dict.Table.{Dict, Node}
use lz_lib.Dict.Table.Ops.{calloc-some}
use lz_lib.Dict.Table.Valid.{IsValid}
use lz_lib.Dict.Wire.{
  value_length, pairs_length, serialized_length, Cursor, put_bytes, copy_bytes, net_bytes,
  serialize_pairs, serialize, dict_allocate_and_serialize, dict_serialized_length,
}
use lz_lib.Dict.Wire.Entries.{
  Entry, Carried, Carries, entry_size, size, entry_bytes, entries_bytes, length-take, length-drop,
  length-net_bytes, length-Carries,
}

pairs_length-size :
    (h : Heap) (ns : List Node) (es : List Entry) (len : ℕ)
    → Carries h.objects ns es
    → len + size es < 2 ^ 31
    → pairs_length h (length ns) ns len ≡ ok (pos (len + size es))
unfolding pairs_length value_length
pairs_length-size h [] [] len c small = ground arith
pairs_length-size h [] (e ∷ es) len c small = absurd c
pairs_length-size h (n ∷ ns) [] len c small = absurd c
pairs_length-size h (n ∷ ns) (e ∷ es) len c small =
    let x = c.0 in
    let taken : length e.value ≡ x.object.len =
      ap length (sym x.is_value) ∙ length-take x.object.len x.bytes x.long in
    let named : length n.key ≡ length e.key = ap length x.is_key in
    let behind : u32 (u32 (len + 4 + 4 + length n.key + 1) + x.object.len) ≡ len + entry_size e =
      omega (arith, taken, named, small) in
    let fits : ltb x.object.len (2 ^ 31) ≡ true = ground (arith, taken, small) in
    rw (pairs_length, x.live, x.plain, fits, ◌>>=◌, behind)
      (pairs_length-size h ns es (len + entry_size e) c.1 (omega (arith, small))
        ∙ ap (λ m. ok (pos m)) (omega arith))

abbrev cursor : List ℕ → List ℕ → Cursor
cursor w l = record { written = w; left = l }

put_bytes-fits :
    (w l bytes : List ℕ)
    → length bytes ≤ length l
    → put_bytes (cursor w l) bytes ≡ ok (cursor (w ++ bytes) (drop (length bytes) l))
unfolding put_bytes
put_bytes-fits w l bytes h = ground arith

copy_bytes-fits :
    (bytes : List ℕ) (n : ℕ)
    → n ≤ length bytes
    → n < 2 ^ 31
    → copy_bytes bytes n ≡ ok (take n bytes)
unfolding copy_bytes
copy_bytes-fits bytes n h small = ground arith

take_all : (xs : List ℕ) → take (length xs) xs ≡ xs
take_all [] = refl
take_all (x ∷ xs) = ap (◌∷◌ x) (take_all xs)

five_parts : (w a b k z v : List ℕ) → w ++ a ++ b ++ k ++ z ++ v ≡ w ++ (a ++ b ++ k ++ z ++ v)
five_parts w a b k z v = simp append_assoc

-- The round of one pair, into a buffer with room for its entry.
round-Carried :
    (little : Bool) (h : Heap) (count : ℕ) (n : Node) (ns : List Node) (e : Entry) (w l : List ℕ)
    → Carried h.objects n e
    → entry_size e ≤ length l
    → entry_size e < 2 ^ 31
    → (l' : List ℕ) × (length l' + entry_size e ≡ length l)
      × (serialize_pairs little h (suc count) (n ∷ ns) (cursor w l)
          ≡ serialize_pairs little h count ns (cursor (w ++ entry_bytes little e) l'))
unfolding serialize_pairs entry_bytes
round-Carried little h count n ns e w l x room small =
    let taken : length e.value ≡ x.object.len =
      ap length (sym x.is_value) ∙ length-take x.object.len x.bytes x.long in
    let named : length n.key ≡ length e.key = ap length x.is_key in
    let key_len : u32 (length n.key) ≡ length e.key = omega (arith, named, small) in
    let a = net_bytes little (length e.key) in
    let b = net_bytes little (length e.value) in
    let la : length a ≡ 4 = length-net_bytes little (length e.key) in
    let lb : length b ≡ 4 = length-net_bytes little (length e.value) in
    let l1 = drop (length a) l in
    let l2 = drop (length b) l1 in
    let l3 = drop (length e.key) l2 in
    let l4 = drop 1 l3 in
    let l5 = drop (length e.value) l4 in
    let h1 = length-drop (length a) l (omega (arith, la, room)) in
    let h2 = length-drop (length b) l1 (omega (arith, la, lb, h1, room)) in
    let h3 = length-drop (length e.key) l2 (omega (arith, la, lb, h1, h2, room)) in
    let h4 = length-drop 1 l3 (omega (arith, la, lb, h1, h2, h3, room)) in
    let h5 = length-drop (length e.value) l4 (omega (arith, la, lb, h1, h2, h3, h4, room)) in
    let put1 = put_bytes-fits w l a (omega (arith, la, room)) in
    let put2 = put_bytes-fits (w ++ a) l1 b (omega (arith, la, lb, h1, room)) in
    let put3 = put_bytes-fits (w ++ a ++ b) l2 e.key (omega (arith, la, lb, h1, h2, room)) in
    let put4 =
      put_bytes-fits (w ++ a ++ b ++ e.key) l3 (0 ∷ []) (omega (arith, la, lb, h1, h2, h3, room)) in
    let put5 =
      put_bytes-fits (w ++ a ++ b ++ e.key ++ (0 ∷ [])) l4 e.value
        (omega (arith, la, lb, h1, h2, h3, h4, room)) in
    let key_copy : copy_bytes n.key (u32 (length n.key)) ≡ ok e.key =
      rw (key_len, x.is_key)
        (copy_bytes-fits e.key (length e.key) (omega arith) (omega (arith, small))
          ∙ ap ok (take_all e.key)) in
    let value_copy : copy_bytes x.bytes x.object.len ≡ ok e.value =
      copy_bytes-fits x.bytes x.object.len x.long (omega (arith, taken, small))
      ∙ ap ok x.is_value in
    (
      l5,
      omega (arith, la, lb, h1, h2, h3, h4, h5),
      rw
          (
            serialize_pairs,
            key_len,
            put1,
            ◌>>=◌,
            x.live,
            sym taken,
            put2,
            key_copy,
            put3,
            put4,
            x.has,
            value_copy,
            put5,
          )
          (ap (λ v. serialize_pairs little h count ns (cursor v l5))
            (five_parts w a b e.key (0 ∷ []) e.value)),
    )

serialize_pairs-entries_bytes :
    (little : Bool) (h : Heap) (ns : List Node) (es : List Entry) (w l : List ℕ)
    → Carries h.objects ns es
    → size es ≤ length l
    → size es < 2 ^ 31
    → (l' : List ℕ) × (length l' + size es ≡ length l)
      × (serialize_pairs little h (length ns) ns (cursor w l)
          ≡ ok (pos 0, cursor (w ++ entries_bytes little es) l'))
unfolding serialize_pairs entries_bytes
serialize_pairs-entries_bytes little h [] [] w l c room small =
    (l, omega arith, ap (λ v. ok (pos 0, cursor v l)) (sym (append-nil w)))
serialize_pairs-entries_bytes little h [] (e ∷ es) w l c room small = absurd c
serialize_pairs-entries_bytes little h (n ∷ ns) [] w l c room small = absurd c
serialize_pairs-entries_bytes little h (n ∷ ns) (e ∷ es) w l c room small =
    let (l1, h1, run1) =
      round-Carried little h (length ns) n ns e w l c.0 (omega (arith, room))
        (omega (arith, small)) in
    let (l2, h2, run2) =
      serialize_pairs-entries_bytes little h ns es (w ++ entry_bytes little e) l1 c.1
        (omega (arith, h1, room)) (omega (arith, small)) in
    (
      l2,
      omega (arith, h1, h2),
      run1
          ∙ run2
          ∙ ap (λ v. ok (pos 0, cursor v l2))
              (append_assoc w (entry_bytes little e) (entries_bytes little es)),
    )

-- The bytes of a whole dictionary: the count, and the entries.
unfoldable pub dict_bytes : Bool → List Entry → List ℕ
unfolding net_bytes entries_bytes
dict_bytes little es = net_bytes little (length es) ++ entries_bytes little es

Carries-length :
    (o : ℕ → Option Data) (ns : List Node) (es : List Entry)
    → Carries o ns es
    → length ns ≡ length es
Carries-length o [] [] c = refl
Carries-length o [] (e ∷ es) c = absurd c
Carries-length o (n ∷ ns) [] c = absurd c
Carries-length o (n ∷ ns) (e ∷ es) c = ap suc (Carries-length o ns es c.1)

pub length-entry_bytes : (little : Bool) (e : Entry) → length (entry_bytes little e) ≡ entry_size e
unfolding entry_bytes
length-entry_bytes little e =
    let a = net_bytes little (length e.key) in
    let b = net_bytes little (length e.value) in
    omega (
      arith,
      length-append a b,
      length-append (a ++ b) e.key,
      length-append (a ++ b ++ e.key) (0 ∷ []),
      length-append (a ++ b ++ e.key ++ (0 ∷ [])) e.value,
      length-net_bytes little (length e.key),
      length-net_bytes little (length e.value),
    )

pub length-entries_bytes :
    (little : Bool) (es : List Entry) → length (entries_bytes little es) ≡ size es
unfolding entries_bytes
length-entries_bytes little [] = refl
length-entries_bytes little (e ∷ es) = omega (
  arith,
  length-append (entry_bytes little e) (entries_bytes little es),
  length-entry_bytes little e,
  length-entries_bytes little es,
)

empty : (l : List ℕ) → length l ≡ 0 → l ≡ []
empty [] e = refl
empty (x ∷ l) e = absurd (omega (arith, e))

-- On a valid dictionary whose pairs carry the entries `es`, of less than 2 ^ 31 bytes together, and with memory,
-- `dict_allocate_and_serialize` returns 0, a buffer with exactly the bytes of these entries, and its length, which is
-- the one that `dict_serialized_length` says: the buffer is neither overrun nor left with bytes to spare.
pub dict_allocate_and_serialize-dict_bytes :
    (little : Bool) (h : Heap) (d : Dict) (es : List Entry)
    → IsValid d
    → Carries h.objects d.members_list es
    → 4 + size es < 2 ^ 31
    → 0 < h.room
    → (dict_serialized_length h (some d) ≡ ok (pos (4 + size es)))
      × (length (dict_bytes little es) ≡ 4 + size es)
      × ((h' : Heap) × (dict_allocate_and_serialize little h (some d)
            ≡ ok (pos 0, some (dict_bytes little es), 4 + size es, h')))
unfolding dict_allocate_and_serialize dict_serialized_length dict_bytes
dict_allocate_and_serialize-dict_bytes little h d es valid c small room =
    let count : length d.members_list ≡ length es = Carries-length h.objects d.members_list es c in
    let few : length d.members_list ≤ size es = length-Carries h.objects d.members_list es c in
    let counted : d.count ≡ length d.members_list = omega (arith, valid.counted, few, small) in
    let fits : ltb d.count (2 ^ 31) ≡ true = ground (arith, counted, few, small) in
    let total = 4 + size es in
    let h' : Heap = record h { next = h.next + 1; room = h.room - 1 } in
    let buf = replicate {A = ℕ} total 0 in
    let long = length-replicate {A = ℕ} total 0 in
    let a = net_bytes little d.count in
    let la = length-net_bytes little d.count in
    let sized : serialized_length h d ≡ ok (pos total) =
      rw (serialized_length, fits, counted) (pairs_length-size h d.members_list es 4 c small) in
    let lb = length-drop (length a) buf (omega (arith, la, long)) in
    let (rest, lr, run) =
      serialize_pairs-entries_bytes little h' d.members_list es ([] ++ a) (drop (length a) buf) c
        (omega (arith, la, lb, long)) (omega (arith, small)) in
    let full : rest ≡ [] = empty rest (omega (arith, lr, lb, la, long)) in
    let run' =
      ap (λ k. serialize_pairs little h' k d.members_list (cursor a (drop (length a) buf))) counted
      ∙ run in
    let same : a ++ entries_bytes little es ++ rest ≡ dict_bytes little es =
      ap (λ r. a ++ entries_bytes little es ++ r) full
      ∙ append-nil (a ++ entries_bytes little es)
      ∙ ap (λ k. net_bytes little k ++ entries_bytes little es) (counted ∙ count) in
    let bytes : serialize little h' d buf ≡ ok (pos 0, dict_bytes little es) =
      rw (serialize, fits, put_bytes-fits [] buf a (omega (arith, la, long)), ◌>>=◌, run')
        (ap (λ v. ok (pos 0, v)) same) in
    (
      sized,
      omega (
        arith,
        length-append (net_bytes little (length es)) (entries_bytes little es),
        length-net_bytes little (length es),
        length-entries_bytes little es,
      ),
      (h', rw (sized, ◌>>=◌, calloc-some h room, bytes) refl),
    )
