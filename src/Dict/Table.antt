-- ===== src/Dict/Table.antt =====
-- `dict_t` of src/dict.h and src/dict.c: a hash table of pairs, which also stand in one list.
--
-- A pair lives from `_dict_set` to `dict_del`, and stands in `members_list` all that time: the list
-- of nodes is the memory of the pairs, `hash_next` chains are lists of their addresses. Each public
-- function of the source holds the dictionary's lock for all that it does, and is one step here.
pub mod Nodes
pub mod Chains
pub mod Refs
pub mod Valid
pub mod Ops
pub mod Del
pub mod Faults
mod Tests
use lz_lib.Base.Int.{ℤ, pos, negsuc}
use lz_lib.Base.{
  ℕ, zero, suc, ◌+◌, ◌-◌, ◌%◌, ◌^◌, ◌≡◌, Bool, true, false, Option, none, some, List, [], ◌∷◌, ◌++◌,
  ◌==◌, ltb, if◌then◌else◌, Run, ok, fault, bad_access, div_by_zero, ◌>>=◌, ◌>>◌, inc32, dec32,
  get_elem?, set, replicate, eq_bytes,
}
use lz_lib.Dict.Store.{Heap, Data, calloc, data_ref, data_unref}
use lz_lib.Hash.{super_fast_hash}

-- `struct _data_pair`, at the address `id`; `value` is the address of its `data_t`.
pub record Node : Type 0 where
  pub id : ℕ
  pub key : List ℕ
  pub value : ℕ

-- `struct _dict`. `members` holds the chain of each bucket; the counts are bit patterns of `int32_t`.
pub record Dict : Type 0 where
  pub is_static : Bool
  pub hash_size : ℕ
  pub count : ℕ
  pub refcount : ℕ
  pub members : List (List ℕ)
  pub members_list : List Node

-- The pair at an address.
pub read_node : List Node → ℕ → Option Node
read_node [] i = none
read_node (n ∷ ns) i = if n.id == i then some n else read_node ns i

-- The walk along a chain by `strcmp`.
unfoldable pub walk : List Node → List ℕ → List ℕ → Run (Option Node)
walk nodes [] key = ok none
walk nodes (i ∷ chain) key =
    let rest = walk nodes chain key in
    elim (read_node nodes i) [
      | none ↦ fault bad_access
      | some n ↦ if eq_bytes n.key key then ok (some n) else rest
    ]

-- `this->members[i]`
unfoldable pub chain_at : Dict → ℕ → Run (List ℕ)
chain_at d i = elim (get_elem? d.members i) [ none ↦ fault bad_access | some chain ↦ ok chain ]

-- `SuperFastHash (key, strlen (key)) % this->hash_size`, an unsigned remainder.
unfoldable pub bucket : Dict → List ℕ → Run ℕ
bucket d key =
    if d.hash_size == 0 then fault div_by_zero else ok (super_fast_hash key % d.hash_size)

-- `_dict_lookup`, of arguments that are not null.
unfoldable pub dict_lookup : Dict → List ℕ → Run (Option Node)
unfolding bucket chain_at walk
dict_lookup d key = do i ← bucket d key; chain ← chain_at d i; walk d.members_list chain key

-- `tmp % this->hash_size` in `_dict_set`: `tmp` is an `int`, so the remainder has its sign. None is a
-- remainder below zero.
unfoldable pub signed_bucket : ℕ → ℕ → Option ℕ
signed_bucket hash size =
    if ltb hash (2 ^ 31)
    then some (hash % size)
    else (if (2 ^ 32 - hash) % size == 0 then some 0 else none)

-- `pair->value = value`
unfoldable pub assign_value : ℕ → ℕ → List Node → List Node
assign_value i v [] = []
assign_value i v (n ∷ ns) =
    if n.id == i then record n { value = v } ∷ ns else n ∷ assign_value i v ns

-- The new pair becomes the first of its chain and the first of the list.
unfoldable pub link_pair : Dict → ℕ → List ℕ → ℕ → Run Dict
unfolding chain_at signed_bucket
link_pair d p key value = elim (signed_bucket (super_fast_hash key) d.hash_size) [
  | none ↦ fault bad_access
  | some i ↦ chain_at d i >>= λ chain. ok (record d {
    members = set d.members i (p ∷ chain);
    members_list = record { id = p; key = key; value = value } ∷ d.members_list;
    count = inc32 d.count;
  })
]

-- `_dict_set` behind the naming of the key: 0, or -1 when an allocation failed.
unfoldable pub dict_set_key : Heap → Dict → List ℕ → ℕ → Run (ℤ × Heap × Dict)
unfolding dict_lookup link_pair assign_value calloc data_ref data_unref
dict_set_key h d key value = dict_lookup d key >>= λ found. elim found [
  | some n ↦ do
    h1 ← data_ref h value
    h2 ← data_unref h1 n.value
    ok (pos 0, h2, record d { members_list = assign_value n.id value d.members_list })
  | none ↦ elim (calloc h) [
    | none ↦ ok (negsuc 0, h, d)
    | some (p, h1) ↦ elim (calloc h1) [
      | none ↦ ok (negsuc 0, h1, d)
      | some (copy, h2) ↦ do
        h3 ← data_ref h2 value
        d' ← link_pair d p key value
        ok (pos 0, h3, d')
    ]
  ]
]

-- `dict_set` and `_dict_set`. `ref_name` is the text that `asprintf` prints for a value by "ref:%p",
-- the name of a null key; that text is allocated too.
unfoldable pub dict_set :
    (ℕ → List ℕ) → Heap → Option Dict → Option (List ℕ) → Option ℕ → Run (ℤ × Heap × Option Dict)
unfolding dict_set_key
dict_set ref_name h none key value = ok (negsuc 0, h, none)
dict_set ref_name h (some d) key none = ok (negsuc 0, h, some d)
dict_set ref_name h (some d) (some key) (some value) =
    dict_set_key h d key value >>= λ r. ok (r.0, r.1, some r.2)
dict_set ref_name h (some d) none (some value) = elim (calloc h) [
  | none ↦ ok (negsuc 0, h, some d)
  | some (text, h1) ↦ dict_set_key h1 d (ref_name value) value >>= λ r. ok (r.0, r.1, some r.2)
]

-- `dict_get`: the address of the value.
unfoldable pub dict_get : Option Dict → Option (List ℕ) → Run (Option ℕ)
unfolding dict_lookup
dict_get none key = ok none
dict_get (some d) none = ok none
dict_get (some d) (some key) =
    dict_lookup d key >>= λ found. elim found [ none ↦ ok none | some n ↦ ok (some n.value) ]

-- `dict_get_with_ref`: 0 with a new reference to the value, -EINVAL or -ENOENT.
unfoldable pub dict_get_with_ref : Heap → Option Dict → Option (List ℕ) → Run (ℤ × Option ℕ × Heap)
unfolding dict_lookup data_ref
dict_get_with_ref h none key = ok (negsuc 21, none, h)
dict_get_with_ref h (some d) none = ok (negsuc 21, none, h)
dict_get_with_ref h (some d) (some key) = dict_lookup d key >>= λ found. elim found [
  | none ↦ ok (negsuc 1, none, h)
  | some n ↦ data_ref h n.value >>= λ h'. ok (pos 0, some n.value, h')
]

-- A pair out of its chain, and out of the list.
pub erase_id : ℕ → List ℕ → List ℕ
erase_id i [] = []
erase_id i (j ∷ js) = if j == i then js else j ∷ erase_id i js

pub erase_node : ℕ → List Node → List Node
erase_node i [] = []
erase_node i (n ∷ ns) = if n.id == i then ns else n ∷ erase_node i ns

-- `dict_del`
pub dict_del_key : Heap → Dict → List ℕ → Run (Heap × Dict)
unfolding bucket chain_at walk erase_id erase_node data_unref
dict_del_key h d key = do
  i ← bucket d key
  chain ← chain_at d i
  found ← walk d.members_list chain key
  elim found [
    | none ↦ ok (h, d)
    | some n ↦ data_unref h n.value >>= λ h'. ok (
      h',
      record d {
        members = set d.members i (erase_id n.id chain);
        members_list = erase_node n.id d.members_list;
        count = dec32 d.count;
      },
    )
  ]

pub dict_del : Heap → Option Dict → Option (List ℕ) → Run (Heap × Option Dict)
unfolding dict_del_key
dict_del h none key = ok (h, none)
dict_del h (some d) none = ok (h, some d)
dict_del h (some d) (some key) = dict_del_key h d key >>= λ r. ok (r.0, some r.1)

-- `dict_destroy`: the loop over the list, which gives back each value.
pub dict_destroy : Heap → List Node → Run Heap
unfolding data_unref
dict_destroy h [] = ok h
dict_destroy h (n ∷ ns) = data_unref h n.value >>= λ h'. dict_destroy h' ns

-- `dict_ref`, `dict_unref`; none is a dictionary that is gone. (A static one is not freed, but all
-- that it held is.)
pub dict_ref : Dict → Dict
dict_ref d = record d { refcount = inc32 d.refcount }

pub dict_unref : Heap → Dict → Run (Heap × Option Dict)
unfolding dict_destroy
dict_unref h d =
    if dec32 d.refcount == 0
    then (dict_destroy h d.members_list >>= λ h'. ok (h', none))
    else ok (h, some (record d { refcount = dec32 d.refcount }))

-- `get_new_dict_full`, `get_new_dict`, `dict_new`
unfoldable pub get_new_dict_full : Heap → ℕ → Option Dict × Heap
unfolding calloc
get_new_dict_full h size_hint = elim (calloc h) [
  | none ↦ (none, h)
  | some (this, h1) ↦ elim (calloc h1) [
    | none ↦ (none, h1)
    | some (table, h2) ↦ (
      some (record {
        is_static = false;
        hash_size = size_hint;
        count = 0;
        refcount = 0;
        members = replicate size_hint [];
        members_list = [];
      }),
      h2,
    )
  ]
]

pub dict_new : Heap → Option Dict × Heap
unfolding get_new_dict_full dict_ref
dict_new h =
    let (made, h') = get_new_dict_full h 1 in
    elim made [ none ↦ (none, h') | some d ↦ (some (dict_ref d), h') ]

-- `dict_foreach` with `_copy`: each pair is set in the other dictionary, whatever `dict_set` returns.
pub copy_pairs : Heap → Dict → List Node → Run (Heap × Dict)
unfolding dict_set_key
copy_pairs h new [] = ok (h, new)
copy_pairs h new (n ∷ ns) = dict_set_key h new n.key n.value >>= λ r. copy_pairs r.1 r.2 ns

-- `dict_copy`. `dict_foreach` refuses a null target, and `dict_copy` then returns it.
pub dict_copy : Heap → Option Dict → Option Dict → Run (Option Dict × Heap)
unfolding get_new_dict_full copy_pairs
dict_copy h none new = ok (none, h)
dict_copy h (some d) (some new) = copy_pairs h new d.members_list >>= λ r. ok (some r.1, r.0)
dict_copy h (some d) none =
    let (made, h') = get_new_dict_full h d.hash_size in
    elim made [
      | none ↦ ok (none, h')
      | some new ↦ copy_pairs h' new d.members_list >>= λ r. ok (some r.1, r.0)
    ]
