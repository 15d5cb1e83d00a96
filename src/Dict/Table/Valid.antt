-- ===== src/Dict/Table/Valid.antt =====
-- What holds of a dictionary between calls, and of the heap that it shares.
use lz_lib.Base.{
  ℕ, zero, suc, ◌%◌, ◌^◌, ◌<◌, ◌≤◌, ◌≡◌, refl, some, List, [], arith, All, length, get_elem?,
  replicate, ok,
}
use lz_lib.Hash.{super_fast_hash}
use lz_lib.Dict.Store.{Heap}
use lz_lib.Dict.Table.{Dict, Node, bucket, chain_at, dict_lookup, signed_bucket}
use lz_lib.Dict.Table.Nodes.{find_key, Distinct, read_node-All}
use lz_lib.Dict.Table.Chains.{homed, walk-homed}
use lz_lib.Dict.Table.Refs.{refs, holders}

-- The table: each chain lists the pairs of its bucket, no two pairs have one address or one key, and
-- `count` is their number.
pub record IsValid (d : Dict) : Type 0 where
  pub width : length d.members ≡ d.hash_size
  pub sized : 0 < d.hash_size
  pub chains :
      (i : ℕ) → i < d.hash_size → get_elem? d.members i ≡ some (homed d.hash_size i d.members_list)
  pub distinct : Distinct d.members_list
  pub counted : d.count ≡ length d.members_list % 2 ^ 32

-- The heap: each object has at least the references that the pairs hold, and the addresses of the
-- pairs are in use.
pub record Owns (h : Heap) (ns : List Node) : Type 0 where
  pub held : (p : ℕ) → holders p ns ≤ refs h p
  pub words : (p : ℕ) → refs h p < 2 ^ 32
  pub used : All (λ n. n.id < h.next) ns

-- The bucket where a key is linked is the one where it is looked up.
abbrev pub LinksHome : Dict → List ℕ → Type 0
LinksHome d key =
    signed_bucket (super_fast_hash key) d.hash_size ≡ some (super_fast_hash key % d.hash_size)

-- That is so in a table of one bucket, and for a hash below 2 ^ 31.
pub LinksHome-single : (d : Dict) (key : List ℕ) → d.hash_size ≡ 1 → LinksHome d key
unfolding signed_bucket
LinksHome-single d key e = rw e (ground arith)

pub LinksHome-small : (d : Dict) (key : List ℕ) → super_fast_hash key < 2 ^ 31 → LinksHome d key
unfolding signed_bucket
LinksHome-small d key e = ground arith

-- The home of a key is a bucket, and its chain is there.
pub chain-home :
    {d : Dict} (key : List ℕ)
    → IsValid d
    → let i = super_fast_hash key % d.hash_size in
      (i < d.hash_size)
      × (bucket d key ≡ ok i)
      × (chain_at d i ≡ ok (homed d.hash_size i d.members_list))
unfolding bucket chain_at
chain-home {d} key v =
    let i = super_fast_hash key % d.hash_size in
    let low : i < d.hash_size = grind (arith, v.sized) in
    (low, ground (arith, v.sized), ground (arith, v.chains i low))

-- A lookup finds the pair of the key, wherever its chain is.
pub dict_lookup-find_key :
    {d : Dict} (key : List ℕ) → IsValid d → dict_lookup d key ≡ ok (find_key key d.members_list)
unfolding dict_lookup
dict_lookup-find_key {d} key v =
    let (low, b, c) = chain-home key v in
    rw (b, c)
      (walk-homed d.hash_size key d.members_list d.members_list
        (read_node-All d.members_list v.distinct))

pub get_elem?-replicate : (n i : ℕ) → i < n → get_elem? (replicate {A = List ℕ} n []) i ≡ some []
get_elem?-replicate zero i h = absurd (omega arith)
get_elem?-replicate (suc n) zero h = refl
get_elem?-replicate (suc n) (suc i) h = get_elem?-replicate n i (omega arith)
