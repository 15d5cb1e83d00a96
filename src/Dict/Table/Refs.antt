-- ===== src/Dict/Table/Refs.antt =====
-- References: how many an object has, and how many of these the pairs of a dictionary hold.
use lz_lib.Base.{
  ℕ, ◌+◌, ◌-◌, ◌^◌, ◌<◌, ◌≡◌, refl, subst, inl, inr, Bool, true, false, Option, none, some, List,
  [], ◌∷◌, arith, ◌==◌, if◌then◌else◌, Bool-cases, Option-cases, eq_bytes, ok, ==_refl, inc32,
  dec32,
}
use lz_lib.Dict.Store.{Data, Heap, put, data_ref, data_unref}
use lz_lib.Dict.Table.{Node}
use lz_lib.Dict.Table.Nodes.{find_key, assign_key, erase_key}

abbrev pub refs : Heap → ℕ → ℕ
refs h p = elim (h.objects p) [ none ↦ 0 | some d ↦ d.refcount ]

abbrev pub one_if : Bool → ℕ
one_if true = 1
one_if false = 0

unfoldable pub holders : ℕ → List Node → ℕ
holders p [] = 0
holders p (n ∷ ns) = one_if (n.value == p) + holders p ns

pub holders-assign_key :
    (p : ℕ) (key : List ℕ) (v : ℕ) (ns : List Node) (n : Node)
    → find_key key ns ≡ some n
    → holders p (assign_key key v ns) + one_if (n.value == p) ≡ holders p ns + one_if (v == p)
unfolding holders assign_key find_key
holders-assign_key p key v [] n e = cc
holders-assign_key p key v (x ∷ xs) n e = elim (Bool-cases (eq_bytes x.key key)) [
  | inl t ↦ let same : x ≡ n = ground arith in rw (← same, t) (omega arith)
  | inr f ↦ rw f (omega (arith, holders-assign_key p key v xs n (ground arith)))
]

pub holders-erase_key :
    (p : ℕ) (key : List ℕ) (ns : List Node) (n : Node)
    → find_key key ns ≡ some n
    → holders p (erase_key key ns) + one_if (n.value == p) ≡ holders p ns
unfolding holders erase_key find_key
holders-erase_key p key [] n e = cc
holders-erase_key p key (x ∷ xs) n e = elim (Bool-cases (eq_bytes x.key key)) [
  | inl t ↦ let same : x ≡ n = ground arith in rw (← same, t) (omega arith)
  | inr f ↦ rw f (omega (arith, holders-erase_key p key xs n (ground arith)))
]

-- The value of a pair is held.
pub holders-pos :
    (key : List ℕ) (ns : List Node) (n : Node) → find_key key ns ≡ some n → 0 < holders n.value ns
unfolding holders find_key
holders-pos key [] n e = cc
holders-pos key (x ∷ xs) n e = elim (Bool-cases (eq_bytes x.key key)) [
  | inl t ↦ let same : x ≡ n = ground arith in rw (← same) (ground arith)
  | inr f ↦ omega (arith, holders-pos key xs n (ground arith))
]

-- The heap after a change of one object's references: the rest is as it was.
pub record Counts (h : Heap) (p n : ℕ) (h' : Heap) : Type 0 where
  pub counts : (q : ℕ) → refs h' q ≡ (if q == p then n else refs h q)
  pub next : h'.next ≡ h.next
  pub room : h'.room ≡ h.room

pub data_ref-Counts :
    (h : Heap) (p : ℕ) (d : Data)
    → h.objects p ≡ some d
    → d.refcount + 1 < 2 ^ 32
    → (h' : Heap) × (data_ref h p ≡ ok h') × Counts h p (refs h p + 1) h'
unfolding data_ref
data_ref-Counts h p d live small = (
  put h p (some (record d { refcount = inc32 d.refcount })),
  ground arith,
  record { counts = λ q. ground arith; next = refl; room = refl },
)

-- The bytes of an object's value.
abbrev pub bytes_of : Heap → ℕ → Option (List ℕ)
bytes_of h p = elim (h.objects p) [ none ↦ none | some x ↦ x.bytes ]

-- A reference changes no bytes, and makes no object.
pub data_ref-bytes_of :
    (h h' : Heap) (p : ℕ)
    → data_ref h p ≡ ok h'
    → (q : ℕ) → (bytes_of h' q ≡ bytes_of h q) × ((h.objects q ≡ none) → h'.objects q ≡ none)
unfolding data_ref
data_ref-bytes_of h h' p run q = elim (Option-cases (h.objects p)) [
  | inl e ↦ absurd (ground arith)
  | inr (x, e) ↦
      let raised = put h p (some (record x { refcount = inc32 x.refcount })) in
      let same : raised ≡ h' = ground arith in
      subst (λ k. (bytes_of k q ≡ bytes_of h q) × ((h.objects q ≡ none) → k.objects q ≡ none)) same
        (ground arith, λ z. ground arith)
]

-- The heap that `data_unref` leaves, of an object with its record.
unref_heap : Heap → ℕ → Data → Heap
unref_heap h p d =
    let h' = put h p (some (record d { refcount = dec32 d.refcount })) in
    let gone = record d { refcount = dec32 d.refcount; len = 0xbabababa } in
    if dec32 d.refcount == 0
    then (if d.is_const
        then (if d.is_static
            then put h' p (some gone)
            else put h' p (some (record gone { bytes = none; vec = none })))
        else put h' p none)
    else h'

data_unref-unref_heap :
    (h : Heap) (p : ℕ) (d : Data) → h.objects p ≡ some d → data_unref h p ≡ ok (unref_heap h p d)
unfolding data_unref unref_heap
data_unref-unref_heap h p d e = ground (arith, ==_refl p)

unref_heap-Counts :
    (h : Heap) (p : ℕ) (d : Data)
    → h.objects p ≡ some d
    → 0 < d.refcount
    → d.refcount < 2 ^ 32
    → Counts h p (d.refcount - 1) (unref_heap h p d)
unfolding unref_heap
unref_heap-Counts h p d e held small = record {
  counts = λ q. ground arith;
  next = ground arith;
  room = ground arith;
}

-- An object that loses its last reference is destroyed, and has none then.
pub data_unref-Counts :
    (h : Heap) (p : ℕ)
    → 0 < refs h p
    → refs h p < 2 ^ 32
    → (h' : Heap) × (data_unref h p ≡ ok h') × Counts h p (refs h p - 1) h'
data_unref-Counts h p held small = elim (Option-cases (h.objects p)) [
  | inl e ↦ absurd (ground arith)
  | inr (d, e) ↦ (
    unref_heap h p d,
    data_unref-unref_heap h p d e,
    let c = unref_heap-Counts h p d e (ground arith) (ground arith) in
        record { counts = λ q. ground (arith, c.counts q); next = c.next; room = c.room },
  )
]
