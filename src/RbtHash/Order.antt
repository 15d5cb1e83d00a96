-- ===== src/RbtHash/Order.antt =====
-- The order of entries that `rbthash_comparator` gives to the trees.
use lz_lib.Base.{
  ℕ, zero, suc, ◌<◌, ◌≡◌, ◌≢◌, ◌⊎◌, inl, inr, refl, sym, ap, ◌∙◌, true, false, List, [], ◌∷◌,
  length, ltb, ◌==◌, if◌then◌else◌, arith, Bool-cases,
}
use mathlib.Core.Path.{ap₂}
use lz_lib.Base.Int.{ℤ, pos, negsuc, ltb_ℤ}
use lz_lib.RbtHash.{Entry, memcmp, rbthash_comparator}

-- A total order on entries, up to those that compare as equal.
pub record IsOrder (cmp : Entry → Entry → ℤ) : Type 0 where
  pub same : (a : Entry) → cmp a a ≡ pos 0
  pub flip : (a b : Entry) → ltb_ℤ (cmp a b) (pos 0) ≡ ltb_ℤ (pos 0) (cmp b a)
  pub trans :
      (a b c : Entry)
      → ltb_ℤ (cmp a b) (pos 0) ≡ true
      → ltb_ℤ (cmp b c) (pos 0) ≡ true
      → ltb_ℤ (cmp a c) (pos 0) ≡ true
  pub equal : (a b c : Entry) → cmp a b ≡ pos 0 → cmp a c ≡ cmp b c

three_ways : (x y : ℕ) → (x < y) ⊎ (y < x) ⊎ (x ≡ y)
three_ways x y = elim (Bool-cases (ltb x y)) [
  | inl e ↦ inl (ground arith)
  | inr e ↦ elim (Bool-cases (ltb y x)) [
    | inl f ↦ inr (inl (ground arith))
    | inr f ↦ inr (inr (ground arith))
  ]
]

smaller : (x y : ℕ) → x < y → ltb x y ≡ true
smaller x y h = ground arith

not_smaller : (x y : ℕ) → y < x → ltb x y ≡ false
not_smaller x y h = ground arith

itself : (x : ℕ) → ltb x x ≡ false
itself x = ground arith

memcmp_below : (x y : ℕ) (a b : List ℕ) → x < y → memcmp (x ∷ a) (y ∷ b) ≡ negsuc 0
unfolding memcmp
memcmp_below x y a b h = rw (smaller x y h) refl

memcmp_above : (x y : ℕ) (a b : List ℕ) → y < x → memcmp (x ∷ a) (y ∷ b) ≡ pos 1
unfolding memcmp
memcmp_above x y a b h = rw (not_smaller x y h, smaller y x h) refl

memcmp_level : (x : ℕ) (a b : List ℕ) → memcmp (x ∷ a) (x ∷ b) ≡ memcmp a b
unfolding memcmp
memcmp_level x a b = rw (itself x) refl

memcmp_same : (a : List ℕ) → memcmp a a ≡ pos 0
unfolding memcmp
memcmp_same [] = refl
memcmp_same (x ∷ a) = memcmp_level x a a ∙ memcmp_same a

memcmp_flip : (a b : List ℕ) → ltb_ℤ (memcmp a b) (pos 0) ≡ ltb_ℤ (pos 0) (memcmp b a)
unfolding memcmp
memcmp_flip [] [] = refl
memcmp_flip [] (y ∷ b) = refl
memcmp_flip (x ∷ a) [] = refl
memcmp_flip (x ∷ a) (y ∷ b) = elim (three_ways x y) [
  | inl h ↦ rw (smaller x y h, not_smaller y x h) refl
  | inr (inl h) ↦ rw (smaller y x h, not_smaller x y h) refl
  | inr (inr h) ↦ rw (h, itself y) (memcmp_flip a b)
]

memcmp_zero : (a b : List ℕ) → length a ≡ length b → memcmp a b ≡ pos 0 → a ≡ b
memcmp_zero [] [] n e = refl
memcmp_zero [] (y ∷ b) n e = absurd (omega (arith, n))
memcmp_zero (x ∷ a) [] n e = absurd (omega (arith, n))
memcmp_zero (x ∷ a) (y ∷ b) n e = elim (three_ways x y) [
  | inl h ↦ absurd (cc (memcmp_below x y a b h, e))
  | inr (inl h) ↦ absurd (ground (arith, memcmp_above x y a b h, e))
  | inr (inr h) ↦
      let rest : memcmp a b ≡ pos 0 =
        sym (memcmp_level y a b) ∙ ap (λ t. memcmp (t ∷ a) (y ∷ b)) (sym h) ∙ e in
      ap₂ ◌∷◌ h (memcmp_zero a b (omega (arith, n)) rest)
]

abbrev Below : ℤ → Type 0
Below z = ltb_ℤ z (pos 0) ≡ true

level-Below :
    (x y : ℕ) (a b : List ℕ)
    → Below (memcmp (x ∷ a) (y ∷ b))
    → (x < y) ⊎ ((x ≡ y) × Below (memcmp a b))
level-Below x y a b h = elim (three_ways x y) [
  | inl k ↦ inl k
  | inr (inl k) ↦ absurd (cc (ap (λ z. ltb_ℤ z (pos 0)) (memcmp_above x y a b k), h))
  | inr (inr k) ↦ inr (
    k,
    ap (λ z. ltb_ℤ z (pos 0)) (sym (ap (λ t. memcmp (t ∷ a) (y ∷ b)) k ∙ memcmp_level y a b)) ∙ h,
  )
]

memcmp_trans :
    (a b c : List ℕ)
    → Below (memcmp a b)
    → Below (memcmp b c)
    → length a ≡ length b
    → length b ≡ length c
    → Below (memcmp a c)
unfolding memcmp
memcmp_trans [] b c h k m n = absurd (ground (arith, h))
memcmp_trans (x ∷ a) [] c h k m n = absurd (ground (arith, h))
memcmp_trans (x ∷ a) (y ∷ b) [] h k m n = absurd (ground (arith, k))
memcmp_trans (x ∷ a) (y ∷ b) (z ∷ c) h k m n = elim (level-Below x y a b h) [
  | inl p ↦ elim (level-Below y z b c k) [
    | inl q ↦ rw (smaller x z (omega (arith, p, q))) refl
    | inr (q, rest) ↦ rw (smaller x z (omega (arith, p, q))) refl
  ]
  | inr (p, rest) ↦ elim (level-Below y z b c k) [
    | inl q ↦ rw (smaller x z (omega (arith, p, q))) refl
    | inr (q, more) ↦
        rw (p, q, itself z) (memcmp_trans a b c rest more (omega (arith, m)) (omega (arith, n)))
  ]
]

-- Entries compare as equal just if they have the same key.
pub rbthash_comparator_zero : (a b : Entry) → rbthash_comparator a b ≡ pos 0 → a.key ≡ b.key
unfolding rbthash_comparator
rbthash_comparator_zero a b e = elim (Bool-cases (length a.key == length b.key)) [
  | inl l ↦ memcmp_zero a.key b.key (ground arith) (
      ap
        (λ c.
          if c
          then memcmp a.key b.key
          else (if ltb (length a.key) (length b.key) then negsuc 0 else pos 1))
        (sym l)
      ∙ e)
  | inr l ↦ absurd (ground (arith, e, l))
]

pub rbthash_comparator_keys :
    (a b c d : Entry)
    → a.key ≡ b.key
    → c.key ≡ d.key
    → rbthash_comparator a c ≡ rbthash_comparator b d
unfolding rbthash_comparator
rbthash_comparator_keys a b c d e f = rw (e, f) refl

comparator_level :
    (a b : Entry) → length a.key ≡ length b.key → rbthash_comparator a b ≡ memcmp a.key b.key
unfolding rbthash_comparator
comparator_level a b l =
    let t : (length a.key == length b.key) ≡ true = ground (arith, l) in rw t refl

comparator_short : (a b : Entry) → length a.key < length b.key → rbthash_comparator a b ≡ negsuc 0
unfolding rbthash_comparator
comparator_short a b l =
    let t : (length a.key == length b.key) ≡ false = ground (arith, l) in
    rw (t, smaller (length a.key) (length b.key) l) refl

comparator_long : (a b : Entry) → length b.key < length a.key → rbthash_comparator a b ≡ pos 1
unfolding rbthash_comparator
comparator_long a b l =
    let t : (length a.key == length b.key) ≡ false = ground (arith, l) in
    rw (t, not_smaller (length a.key) (length b.key) l) refl

comparator_flip :
    (a b : Entry) → ltb_ℤ (rbthash_comparator a b) (pos 0) ≡ ltb_ℤ (pos 0) (rbthash_comparator b a)
comparator_flip a b = elim (three_ways (length a.key) (length b.key)) [
  | inl l ↦ rw (comparator_short a b l, comparator_long b a l) refl
  | inr (inl l) ↦ rw (comparator_long a b l, comparator_short b a l) refl
  | inr (inr l) ↦
      rw (comparator_level a b l, comparator_level b a (sym l)) (memcmp_flip a.key b.key)
]

-- The first of two entries in order has the shorter key, or one of the same length that is below.
ordered :
    (a b : Entry)
    → Below (rbthash_comparator a b)
    → (length a.key < length b.key) ⊎ ((length a.key ≡ length b.key) × Below (memcmp a.key b.key))
ordered a b h = elim (three_ways (length a.key) (length b.key)) [
  | inl l ↦ inl l
  | inr (inl l) ↦ absurd (cc (ap (λ z. ltb_ℤ z (pos 0)) (comparator_long a b l), h))
  | inr (inr l) ↦ inr (l, ap (λ z. ltb_ℤ z (pos 0)) (sym (comparator_level a b l)) ∙ h)
]

comparator-Below : (a b : Entry) → length a.key < length b.key → Below (rbthash_comparator a b)
comparator-Below a b l = ap (λ z. ltb_ℤ z (pos 0)) (comparator_short a b l)

comparator_trans :
    (a b c : Entry)
    → Below (rbthash_comparator a b)
    → Below (rbthash_comparator b c)
    → Below (rbthash_comparator a c)
comparator_trans a b c h k = elim (ordered a b h) [
  | inl p ↦ elim (ordered b c k) [
    | inl q ↦ comparator-Below a c (omega (arith, p, q))
    | inr (q, more) ↦ comparator-Below a c (omega (arith, p, q))
  ]
  | inr (p, rest) ↦ elim (ordered b c k) [
    | inl q ↦ comparator-Below a c (omega (arith, p, q))
    | inr (q, more) ↦
        ap (λ z. ltb_ℤ z (pos 0)) (comparator_level a c (p ∙ q))
        ∙ memcmp_trans a.key b.key c.key rest more p q
  ]
]

-- `rbthash_comparator` is a total order, and its value is 0 just for entries with the same key.
pub rbthash_comparator-IsOrder :
    (a b : Entry)
    → IsOrder rbthash_comparator
      × (((rbthash_comparator a b ≡ pos 0) × (a.key ≡ b.key))
          ⊎ ((rbthash_comparator a b ≢ pos 0) × (a.key ≢ b.key)))
rbthash_comparator-IsOrder a b = (
  record {
    same = λ a. comparator_level a a refl ∙ memcmp_same a.key;
    flip = comparator_flip;
    trans = comparator_trans;
    equal = λ a b c e. rbthash_comparator_keys a b c c (rbthash_comparator_zero a b e) refl;
  },
  elim (zero_cases (rbthash_comparator a b)) [
    | inl z ↦ inl (z, rbthash_comparator_zero a b z)
    | inr n ↦ inr (
      n,
      λ e.
          n (
            rbthash_comparator_keys a b b b e refl ∙ comparator_level b b refl ∙ memcmp_same b.key),
    )
  ],
)
  where
    zero_cases : (z : ℤ) → (z ≡ pos 0) ⊎ (z ≢ pos 0)
    zero_cases (pos zero) = inl refl
    zero_cases (pos (suc n)) = inr (λ e. ground (arith, e))
    zero_cases (negsuc n) = inr (λ e. ground (arith, e))
