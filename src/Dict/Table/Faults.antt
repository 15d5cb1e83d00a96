-- ===== src/Dict/Table/Faults.antt =====
-- Where `dict_set` leaves the table: the index is the remainder of a signed number. And the ends of a
-- dictionary's life.
use lz_lib.Base.{
  inc32, inr, set, ltb, inl, Bool-cases, ◌⊎◌, ℕ, ◌==◌, ◌⊎◌, inl, inr, ltb, set, inc32, Bool-cases,
  ◌+◌, ◌-◌, ◌%◌, ◌^◌, ◌<◌, ◌≤◌, ◌≡◌, ◌≢◌, refl, false, none, some, List, [], ◌∷◌, arith, replicate,
  length-replicate, ok, fault, bad_access, ◌>>=◌,
}
use lz_lib.Hash.{super_fast_hash}
use lz_lib.Dict.Store.{Data, Heap}
use lz_lib.Dict.Table.{
  pos, Dict, Node, chain_at, signed_bucket, link_pair, dict_set_key, dict_set, dict_destroy,
  get_new_dict_full,
}
use lz_lib.Dict.Table.Nodes.{find_key, view}
use lz_lib.Dict.Table.Chains.{homed}
use lz_lib.Dict.Table.Refs.{refs, holders, data_ref-Counts, data_unref-Counts}
use lz_lib.Dict.Table.Valid.{IsValid, dict_lookup-find_key, get_elem?-replicate}
use lz_lib.Dict.Table.Ops.{calloc-some}

-- The bucket of a hash, where it is one of the table, or none.
signed_bucket-InTable :
    (hash size : ℕ)
    → 0 < size
    → ((i : ℕ) × (signed_bucket hash size ≡ some i)
        × (i < size)
        × ((hash < 2 ^ 31) ⊎ ((2 ^ 32 - hash) % size ≡ 0)))
      ⊎ ((signed_bucket hash size ≡ none) × (2 ^ 31 ≤ hash) × ((2 ^ 32 - hash) % size ≢ 0))
unfolding signed_bucket
signed_bucket-InTable hash size sized = elim (Bool-cases (ltb hash (2 ^ 31))) [
  | inl low ↦ inl (hash % size, rw low refl, ground arith, inl (ground arith))
  | inr high ↦ elim (Bool-cases ((2 ^ 32 - hash) % size == 0)) [
    | inl whole ↦ inl (0, rw (high, whole) refl, sized, inr (ground arith))
    | inr odd ↦ inr (rw (high, odd) refl, ground arith, λ e. ground arith)
  ]
]

-- Setting a new key in a valid dictionary, to a live value with references to spare and with memory for the pair and its
-- key, ends in one of two ways. It returns 0, and then the key's hash is below 2 ^ 31, or 2 ^ 32 less the hash is
-- a multiple of the number of buckets (as it is for a table of one bucket); or it indexes `members` in front of the table,
-- and then the hash is 2 ^ 31 or more and 2 ^ 32 less the hash is no such multiple.
pub dict_set_negative :
    (ref_name : ℕ → List ℕ) (h : Heap) {d : Dict} (key : List ℕ) (value : ℕ) (x : Data)
    → IsValid d
    → find_key key d.members_list ≡ none
    → h.objects value ≡ some x
    → x.refcount + 1 < 2 ^ 32
    → 2 ≤ h.room
    → ((h' : Heap) × (d' : Dict) × (dict_set ref_name h (some d) (some key) (some value)
          ≡ ok (pos 0, h', some d'))
        × ((super_fast_hash key < 2 ^ 31) ⊎ ((2 ^ 32 - super_fast_hash key) % d.hash_size ≡ 0)))
      ⊎ ((dict_set ref_name h (some d) (some key) (some value) ≡ fault bad_access)
          × (2 ^ 31 ≤ super_fast_hash key)
          × ((2 ^ 32 - super_fast_hash key) % d.hash_size ≢ 0))
unfolding dict_set dict_set_key link_pair chain_at
dict_set_negative ref_name h {d} key value x valid absent live small room =
    let h1 : Heap = record h { next = h.next + 1; room = h.room - 1 } in
    let h2 : Heap = record h { next = h.next + 1 + 1; room = h.room - 1 - 1 } in
    let (h3, run, c) = data_ref-Counts h2 value x live small in
    let first = calloc-some h (omega arith) in
    let second = calloc-some h1 (omega arith) in
    elim (signed_bucket-InTable (super_fast_hash key) d.hash_size valid.sized) [
      | inl (i, at, low, why) ↦
          let chain = valid.chains i low in
          inl (
            h3,
            record d {
              members = set d.members i (h.next ∷ homed d.hash_size i d.members_list);
              members_list = record { id = h.next; key = key; value = value } ∷ d.members_list;
              count = inc32 d.count;
            },
            rw (dict_lookup-find_key key valid, absent, ◌>>=◌, first, second, run, at, chain) refl,
            why,
          )
      | inr (at, high, odd) ↦ inr (
        rw (dict_lookup-find_key key valid, absent, ◌>>=◌, first, second, run, at) refl,
        high,
        odd,
      )
    ]

-- The end of a dictionary gives back each reference that its pairs hold, and no other.
dict_destroy-refs :
    (h : Heap) (ns : List Node)
    → ((p : ℕ) → holders p ns ≤ refs h p)
    → ((p : ℕ) → refs h p < 2 ^ 32)
    → (h' : Heap) × (dict_destroy h ns ≡ ok h') × ((p : ℕ) → refs h' p + holders p ns ≡ refs h p)
unfolding dict_destroy holders
dict_destroy-refs h [] held words = (h, refl, λ p. omega arith)
dict_destroy-refs h (n ∷ ns) held words =
    let mine : 0 < refs h n.value = ground (arith, held n.value) in
    let (h1, run, c) = data_unref-Counts h n.value mine (words n.value) in
    let (h2, rest, eq) =
      dict_destroy-refs h1 ns (λ p. ground (arith, held p, c.counts p))
        (λ p. ground (arith, words p, c.counts p)) in
    (h2, rw (run, ◌>>=◌) rest, λ p. ground (arith, eq p, c.counts p, held p))

-- With two allocations, `get_new_dict_full` makes a valid dictionary that reads null at every key.
get_new_dict_full-IsValid :
    (h : Heap) (size_hint : ℕ)
    → 0 < size_hint
    → 2 ≤ h.room
    → (d : Dict) × (h' : Heap) × (get_new_dict_full h size_hint ≡ (some d, h'))
      × IsValid d
      × (d.hash_size ≡ size_hint)
      × ((q : List ℕ) → view q d.members_list ≡ none)
unfolding get_new_dict_full homed view
get_new_dict_full-IsValid h size_hint pos_size room =
    let h1 : Heap = record h { next = h.next + 1; room = h.room - 1 } in
    (
      record {
        is_static = false;
        hash_size = size_hint;
        count = 0;
        refcount = 0;
        members = replicate size_hint [];
        members_list = [];
      },
      record h { next = h.next + 1 + 1; room = h.room - 1 - 1 },
      rw (get_new_dict_full, calloc-some h (omega arith), calloc-some h1 (omega arith)) refl,
      record {
        width = length-replicate size_hint [];
        sized = pos_size;
        chains = get_elem?-replicate size_hint;
        distinct = tt;
        counted = omega arith;
      },
      refl,
      λ q. refl,
    )
