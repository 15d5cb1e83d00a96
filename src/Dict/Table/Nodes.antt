-- ===== src/Dict/Table/Nodes.antt =====
-- The list of pairs, read by address and by key.
use lz_lib.Base.{
  ◌+◌, true, length, ℕ, ◌≡◌, ◌≢◌, refl, inl, inr, false, Option, none, some, List, [], ◌∷◌, arith,
  All, if◌then◌else◌, Bool-cases, eq_bytes, eq_bytes_iff,
}
use lz_lib.Dict.Table.{Node, read_node, assign_value, erase_node}

-- The first pair with a key, and the value that it holds.
unfoldable pub find_key : List ℕ → List Node → Option Node
find_key key [] = none
find_key key (n ∷ ns) = if eq_bytes n.key key then some n else find_key key ns

unfoldable pub view : List ℕ → List Node → Option ℕ
unfolding find_key
view key [] = none
view key (n ∷ ns) = if eq_bytes n.key key then some n.value else view key ns

pub view-find_key :
    (key : List ℕ) (ns : List Node)
    → view key ns ≡ elim (find_key key ns) [ none ↦ none | some n ↦ some n.value ]
unfolding view find_key
view-find_key key [] = refl
view-find_key key (n ∷ ns) = ground (arith, view-find_key key ns)

-- No two pairs have the same address or the same key.
abbrev pub Fresh : ℕ → List ℕ → List Node → Type 0
Fresh i key = All (λ m. (m.id ≢ i) × (eq_bytes m.key key ≡ false))

abbrev pub Distinct : List Node → Type 0
Distinct [] = Unit {0}
Distinct (n ∷ ns) = Fresh n.id n.key ns × Distinct ns

read-cons :
    (n : Node) (full xs : List Node)
    → All (λ m. (m.id ≢ n.id) × (eq_bytes m.key n.key ≡ false)) xs
    → All (λ m. read_node full m.id ≡ some m) xs
    → All (λ m. read_node (n ∷ full) m.id ≡ some m) xs
unfolding read_node
read-cons n full [] h k = tt
read-cons n full (x ∷ xs) h k = (ground (arith, h.0.0), read-cons n full xs h.1 k.1)

-- Each pair of the list is found at its address.
pub read_node-All : (ns : List Node) → Distinct ns → All (λ m. read_node ns m.id ≡ some m) ns
unfolding read_node
read_node-All [] d = tt
read_node-All (n ∷ ns) d = (ground arith, read-cons n ns ns d.0 (read_node-All ns d.1))

pub find_key-All :
    (P : Node → Type 0) (key : List ℕ) (ns : List Node) (n : Node)
    → find_key key ns ≡ some n
    → All P ns
    → P n × (n.key ≡ key)
unfolding find_key
find_key-All P key [] n e h = cc
find_key-All P key (x ∷ xs) n e h = elim (Bool-cases (eq_bytes x.key key)) [
  | inl t ↦ let same : x ≡ n = ground arith in rw (← same) (h.0, (eq_bytes_iff x.key key).0 t)
  | inr f ↦ find_key-All P key xs n (ground arith) h.1
]

pub find_key-key :
    (key : List ℕ) (ns : List Node) (n : Node) → find_key key ns ≡ some n → n.key ≡ key
unfolding find_key
find_key-key key [] n e = cc
find_key-key key (x ∷ xs) n e = elim (Bool-cases (eq_bytes x.key key)) [
  | inl t ↦ let same : x ≡ n = ground arith in rw (← same) ((eq_bytes_iff x.key key).0 t)
  | inr f ↦ find_key-key key xs n (ground arith)
]

-- The same writes, by key.
unfoldable pub assign_key : List ℕ → ℕ → List Node → List Node
assign_key key v [] = []
assign_key key v (n ∷ ns) =
    if eq_bytes n.key key then record n { value = v } ∷ ns else n ∷ assign_key key v ns

unfoldable pub erase_key : List ℕ → List Node → List Node
erase_key key [] = []
erase_key key (n ∷ ns) = if eq_bytes n.key key then ns else n ∷ erase_key key ns

pub assign_value-assign_key :
    (key : List ℕ) (v : ℕ) (ns : List Node) (n : Node)
    → Distinct ns
    → find_key key ns ≡ some n
    → assign_value n.id v ns ≡ assign_key key v ns
unfolding assign_value assign_key find_key
assign_value-assign_key key v [] n d e = cc
assign_value-assign_key key v (x ∷ xs) n d e = elim (Bool-cases (eq_bytes x.key key)) [
  | inl t ↦ let same : x ≡ n = ground arith in ground arith
  | inr f ↦
      let tail : find_key key xs ≡ some n = ground arith in
      let away = (find_key-All _ key xs n tail d.0).0 in
      ground (arith, away.0, assign_value-assign_key key v xs n d.1 tail)
]

pub erase_node-erase_key :
    (key : List ℕ) (ns : List Node) (n : Node)
    → Distinct ns
    → find_key key ns ≡ some n
    → erase_node n.id ns ≡ erase_key key ns
unfolding erase_node erase_key find_key
erase_node-erase_key key [] n d e = cc
erase_node-erase_key key (x ∷ xs) n d e = elim (Bool-cases (eq_bytes x.key key)) [
  | inl t ↦ let same : x ≡ n = ground arith in ground arith
  | inr f ↦
      let tail : find_key key xs ≡ some n = ground arith in
      let away = (find_key-All _ key xs n tail d.0).0 in
      ground (arith, away.0, erase_node-erase_key key xs n d.1 tail)
]

-- Writes by key keep addresses and keys apart.
pub Fresh-assign_key :
    (i : ℕ) (k key : List ℕ) (v : ℕ) (ns : List Node)
    → Fresh i k ns
    → Fresh i k (assign_key key v ns)
unfolding assign_key
Fresh-assign_key i k key v [] h = tt
Fresh-assign_key i k key v (n ∷ ns) h = elim (Bool-cases (eq_bytes n.key key)) [
  | inl t ↦ rw t h
  | inr f ↦ rw f (h.0, Fresh-assign_key i k key v ns h.1)
]

pub Distinct-assign_key :
    (key : List ℕ) (v : ℕ) (ns : List Node) → Distinct ns → Distinct (assign_key key v ns)
unfolding assign_key
Distinct-assign_key key v [] d = tt
Distinct-assign_key key v (n ∷ ns) d = elim (Bool-cases (eq_bytes n.key key)) [
  | inl t ↦ rw t d
  | inr f ↦ rw f (Fresh-assign_key n.id n.key key v ns d.0, Distinct-assign_key key v ns d.1)
]

Fresh-erase_key :
    (i : ℕ) (k key : List ℕ) (ns : List Node) → Fresh i k ns → Fresh i k (erase_key key ns)
unfolding erase_key
Fresh-erase_key i k key [] h = tt
Fresh-erase_key i k key (n ∷ ns) h = elim (Bool-cases (eq_bytes n.key key)) [
  | inl t ↦ rw t h.1
  | inr f ↦ rw f (h.0, Fresh-erase_key i k key ns h.1)
]

pub Distinct-erase_key : (key : List ℕ) (ns : List Node) → Distinct ns → Distinct (erase_key key ns)
unfolding erase_key
Distinct-erase_key key [] d = tt
Distinct-erase_key key (n ∷ ns) d = elim (Bool-cases (eq_bytes n.key key)) [
  | inl t ↦ rw t d.1
  | inr f ↦ rw f (Fresh-erase_key n.id n.key key ns d.0, Distinct-erase_key key ns d.1)
]

pub length-assign_key :
    (key : List ℕ) (v : ℕ) (ns : List Node) → length (assign_key key v ns) ≡ length ns
unfolding assign_key
length-assign_key key v [] = refl
length-assign_key key v (n ∷ ns) = ground (arith, length-assign_key key v ns)

pub length-erase_key :
    (key : List ℕ) (ns : List Node) (n : Node)
    → find_key key ns ≡ some n
    → length (erase_key key ns) + 1 ≡ length ns
unfolding erase_key find_key
length-erase_key key [] n e = cc
length-erase_key key (x ∷ xs) n e = ground (arith, length-erase_key key xs n)

-- What a write does to the view.
pub view-assign_key :
    (key q : List ℕ) (v : ℕ) (ns : List Node) (n : Node)
    → find_key key ns ≡ some n
    → view q (assign_key key v ns) ≡ (if eq_bytes key q then some v else view q ns)
unfolding view assign_key find_key
view-assign_key key q v [] n e = cc
view-assign_key key q v (x ∷ xs) n e = ground (
  arith,
  eq_bytes_iff x.key key,
  eq_bytes_iff x.key q,
  eq_bytes_iff key q,
  view-assign_key key q v xs n,
)

view-Fresh :
    (i : ℕ) (key q : List ℕ) (ns : List Node)
    → Fresh i key ns
    → eq_bytes key q ≡ true
    → view q ns ≡ none
unfolding view
view-Fresh i key q [] h e = refl
view-Fresh i key q (x ∷ xs) h e = ground (
  arith,
  eq_bytes_iff x.key key,
  eq_bytes_iff x.key q,
  eq_bytes_iff key q,
  h.0.1,
  view-Fresh i key q xs h.1,
)

pub view-erase_key :
    (key q : List ℕ) (ns : List Node)
    → Distinct ns
    → view q (erase_key key ns) ≡ (if eq_bytes key q then none else view q ns)
unfolding view erase_key
view-erase_key key q [] d = ground arith
view-erase_key key q (x ∷ xs) d = ground (
  arith,
  eq_bytes_iff x.key key,
  eq_bytes_iff x.key q,
  eq_bytes_iff key q,
  view-Fresh x.id x.key q xs d.0,
  view-erase_key key q xs d.1,
)

-- Where no pair has the key, a new one is apart from all.
pub Fresh-absent :
    (i : ℕ) (key : List ℕ) (ns : List Node)
    → find_key key ns ≡ none
    → All (λ m. m.id ≢ i) ns
    → Fresh i key ns
unfolding find_key
Fresh-absent i key [] e h = tt
Fresh-absent i key (x ∷ xs) e h = ((h.0, ground arith), Fresh-absent i key xs (ground arith) h.1)

-- A predicate of the address holds after a write if it held before.
module _ (P : ℕ → Type 0) (key : List ℕ) where
  pub All-assign_key :
      (v : ℕ) (ns : List Node) → All (λ n. P n.id) ns → All (λ n. P n.id) (assign_key key v ns)
  unfolding assign_key
  All-assign_key v [] h = tt
  All-assign_key v (n ∷ ns) h = elim (Bool-cases (eq_bytes n.key key)) [
    | inl t ↦ rw t h
    | inr f ↦ rw f (h.0, All-assign_key v ns h.1)
  ]

  pub All-erase_key : (ns : List Node) → All (λ n. P n.id) ns → All (λ n. P n.id) (erase_key key ns)
  unfolding erase_key
  All-erase_key [] h = tt
  All-erase_key (n ∷ ns) h = elim (Bool-cases (eq_bytes n.key key)) [
    | inl t ↦ rw t h.1
    | inr f ↦ rw f (h.0, All-erase_key ns h.1)
  ]
