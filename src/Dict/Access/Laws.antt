-- ===== src/Dict/Access/Laws.antt =====
-- What `dict_get_int32` and its relatives return, and that they give the reference back.
use lz_lib.Base.{
  ℕ, ◌+◌, ◌<◌, ◌^◌, ◌≡◌, refl, ap, false, Option, none, some, List, ok, ◌>>=◌, arith, inc32,
}
use lz_lib.Base.Int.{ℤ, negsuc}
use lz_lib.CommonUtils.{Converted}
use lz_lib.Dict.Store.{Heap, Data, put, data_ref}
use lz_lib.Dict.Table.{Dict, Node, dict_get_with_ref}
use lz_lib.Dict.Table.Nodes.{find_key}
use lz_lib.Dict.Table.Valid.{IsValid, dict_lookup-find_key}
use lz_lib.Dict.Table.Refs.{refs, data_unref-Counts}
use lz_lib.Dict.Typed.{copied}
use lz_lib.Dict.Access.{checked, convert_and_unref, get_number}

-- The heap with one reference more.
abbrev referred : Heap → ℕ → Data → Heap
referred h p x = put h p (some (record x { refcount = x.refcount + 1 }))

data_ref-referred :
    (h : Heap) (p : ℕ) (x : Data)
    → h.objects p ≡ some x
    → x.refcount + 1 < 2 ^ 32
    → data_ref h p ≡ ok (referred h p x)
unfolding data_ref
data_ref-referred h p x e small =
    let n : inc32 x.refcount ≡ x.refcount + 1 = ground arith in
    ground (arith, ap (λ k. put h p (some (record x { refcount = k }))) n)

module _ {A B : Type 0} (convert : List ℕ → Converted A) (cast : A → B) where
  convert_and_unref-refs :
      (h : Heap) (p : ℕ) (x : Data) (r : ℤ × Option B)
      → h.objects p ≡ some x
      → x.refcount + 1 < 2 ^ 32
      → checked convert cast (some x) ≡ ok r
      → (h' : Heap) × (convert_and_unref (checked convert cast) p (referred h p x)
          ≡ ok (r.0, r.1, h'))
        × ((q : ℕ) → refs h' q ≡ refs h q)
  unfolding convert_and_unref checked copied
  convert_and_unref-refs h p x r e small run =
      let (h', gone, counts) = data_unref-Counts (referred h p x) p (ground arith) (ground arith) in
      let there : (referred h p x).objects p ≡ some (record x { refcount = x.refcount + 1 }) =
        ground arith in
      (
        h',
        rw (there, run) (ap (λ z. z >>= (λ k. ok (r.0, r.1, k))) gone),
        λ q. ground (arith, counts.counts q),
      )

  -- `dict_get_int8` and its relatives on a valid dictionary, each by its conversion.  A key that is there, whose value is
  -- an object with room for one reference more: the call answers as the conversion of the value does, and no object
  -- has more or fewer references than before.
  get_number-refs :
      (h : Heap) (d : Dict) (key : List ℕ) (n : Node) (x : Data) (r : ℤ × Option B)
      → IsValid d
      → find_key key d.members_list ≡ some n
      → h.objects n.value ≡ some x
      → x.refcount + 1 < 2 ^ 32
      → checked convert cast (some x) ≡ ok r
      → (h' : Heap) × (get_number (checked convert cast) h (some d) (some key) false
          ≡ ok (r.0, r.1, h'))
        × ((q : ℕ) → refs h' q ≡ refs h q)
  unfolding get_number dict_get_with_ref
  get_number-refs h d key n x r valid found there small run =
      let (h', done, same) = convert_and_unref-refs h n.value x r there small run in
      (
        h',
        rw (dict_lookup-find_key key valid, found, data_ref-referred h n.value x there small) done,
        same,
      )

  -- A key that is not there: -ENOENT, and the heap as it was.
  get_number-absent :
      (h : Heap) (d : Dict) (key : List ℕ)
      → IsValid d
      → find_key key d.members_list ≡ none
      → get_number (checked convert cast) h (some d) (some key) false ≡ ok (negsuc 1, none, h)
  unfolding get_number dict_get_with_ref
  get_number-absent h d key valid absent = rw (dict_lookup-find_key key valid, absent) refl
