-- ===== src/Dict/Table/Chains.antt =====
-- The chain of a bucket lists the pairs of the dictionary's list that belong there, in its order.
use lz_lib.Base.{
  ℕ, ◌%◌, ◌≡◌, refl, inl, inr, some, List, [], ◌∷◌, arith, All, ◌==◌, if◌then◌else◌, Bool-cases,
  eq_bytes, eq_bytes_iff, ok,
}
use lz_lib.Hash.{super_fast_hash}
use lz_lib.Dict.Table.{Node, read_node, walk, erase_id}
use lz_lib.Dict.Table.Nodes.{find_key, Distinct, assign_key, erase_key, find_key-All}

unfoldable pub homed : ℕ → ℕ → List Node → List ℕ
homed size i [] = []
homed size i (n ∷ ns) =
    let rest = homed size i ns in if super_fast_hash n.key % size == i then n.id ∷ rest else rest

-- The walk along the home chain of a key finds what is in the list.
pub walk-homed :
    (size : ℕ) (key : List ℕ) (full ns : List Node)
    → All (λ m. read_node full m.id ≡ some m) ns
    → walk full (homed size (super_fast_hash key % size) ns) key ≡ ok (find_key key ns)
unfolding walk homed find_key
walk-homed size key full [] h = refl
walk-homed size key full (n ∷ ns) h = elim (Bool-cases (eq_bytes n.key key)) [
  | inl t ↦
      let same = (eq_bytes_iff n.key key).0 t in
      rw same (ground (arith, h.0, walk-homed size key full ns h.1))
  | inr f ↦ ground (arith, h.0, walk-homed size key full ns h.1)
]

pub homed-assign_key :
    (size i : ℕ) (key : List ℕ) (v : ℕ) (ns : List Node)
    → homed size i (assign_key key v ns) ≡ homed size i ns
unfolding homed assign_key
homed-assign_key size i key v [] = refl
homed-assign_key size i key v (n ∷ ns) = ground (arith, homed-assign_key size i key v ns)

pub homed-erase_key :
    (size i : ℕ) (key : List ℕ) (ns : List Node) (n : Node)
    → Distinct ns
    → find_key key ns ≡ some n
    → homed size i (erase_key key ns) ≡ (
        if super_fast_hash key % size == i
        then erase_id n.id (homed size i ns)
        else homed size i ns)
unfolding homed erase_key find_key erase_id
homed-erase_key size i key [] n d e = cc
homed-erase_key size i key (x ∷ xs) n d e = elim (Bool-cases (eq_bytes x.key key)) [
  | inl t ↦ let same : x ≡ n = ground arith in let k = (eq_bytes_iff x.key key).0 t in ground arith
  | inr f ↦
      let tail : find_key key xs ≡ some n = ground arith in
      let away = (find_key-All _ key xs n tail d.0).0.0 in
      ground (arith, away, homed-erase_key size i key xs n d.1 tail)
]
