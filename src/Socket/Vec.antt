-- ===== src/Socket/Vec.antt =====
-- The addresses that a vector of blocks covers, in the order in which bytes go into them or come out of them.
use lz_lib.Base.{
  false, ℕ, zero, suc, ◌+◌, ◌-◌, ◌<◌, ◌≤◌, ◌≡◌, refl, sym, ap, ◌∙◌, inl, inr, Bool-cases, List, [],
  ◌∷◌, ◌++◌, length, length-append, drop, leb, ◌==◌, arith, ok,
}
use lz_lib.Socket.{Iov, skip_empty, advance}

abbrev pub range : ℕ → ℕ → List ℕ
range base zero = []
range base (suc n) = base ∷ range (base + 1) n

abbrev pub addresses : List Iov → List ℕ
addresses [] = []
addresses (v ∷ vs) = range v.base v.len ++ addresses vs

pub length-range : (base n : ℕ) → length (range base n) ≡ n
length-range base zero = refl
length-range base (suc n) = ap suc (length-range (base + 1) n)

pub drop-range :
    (base n k : ℕ) (rest : List ℕ)
    → k ≤ n
    → drop k (range base n ++ rest) ≡ range (base + k) (n - k) ++ rest
drop-range base n zero rest h =
    let p : base + 0 ≡ base = omega arith in let q : n - 0 ≡ n = omega arith in rw (p, q) refl
drop-range base zero (suc k) rest h = absurd (omega arith)
drop-range base (suc n) (suc k) rest h =
    let p : base + 1 + k ≡ base + suc k = omega arith in
    let q : n - k ≡ suc n - suc k = omega arith in
    rw (← p, ← q) (drop-range (base + 1) n k rest (omega arith))

pub addresses-skip_empty : (vs : List Iov) → addresses (skip_empty vs) ≡ addresses vs
unfolding skip_empty
addresses-skip_empty [] = refl
addresses-skip_empty (v ∷ vs) = elim (Bool-cases (v.len == 0)) [
  | inl e ↦ let z : v.len ≡ 0 = ground arith in rw (e, z) (addresses-skip_empty vs)
  | inr e ↦ rw e refl
]

pub drop_behind :
    {A : Type 0} (xs ys : List A) (n : ℕ)
    → length xs ≤ n
    → drop n (xs ++ ys) ≡ drop (n - length xs) ys
drop_behind [] ys n h = let p : n - 0 ≡ n = omega arith in rw p refl
drop_behind (x ∷ xs) ys zero h = absurd (omega arith)
drop_behind (x ∷ xs) ys (suc n) h =
    let p : suc n - suc (length xs) ≡ n - length xs = omega arith in
    rw p (drop_behind xs ys n (omega arith))

-- The first block has bytes left.
abbrev pub Lively : List Iov → Type 0
Lively [] = Unit
Lively (v ∷ vs) = 0 < v.len

skip_empty-Lively : (vs : List Iov) → Lively (skip_empty vs)
unfolding skip_empty
skip_empty-Lively [] = tt
skip_empty-Lively (v ∷ vs) = elim (Bool-cases (v.len == 0)) [
  | inl e ↦ rw e (skip_empty-Lively vs)
  | inr e ↦ rw e (ground arith)
]

-- The blocks behind n bytes: `advance` stays in the vector, and gives the addresses behind the first n.
pub advance-addresses :
    (n : ℕ) (vec : List Iov)
    → 0 < n
    → n ≤ length (addresses vec)
    → (vec' : List Iov) × (advance n vec ≡ ok vec')
      × (addresses vec' ≡ drop n (addresses vec))
      × Lively vec'
unfolding advance
advance-addresses n [] h k = absurd (omega arith)
advance-addresses n (v ∷ vs) h k =
    let some_left : (n == 0) ≡ false = ground arith in
    let len = length-range v.base v.len in
    let all = length-append (range v.base v.len) (addresses vs) in
    elim (Bool-cases (leb v.len n)) [
      | inl e ↦ elim (Bool-cases (n == v.len)) [
        | inl f ↦
            let same : n ≡ v.len = ground arith in
            let none_left : n - length (range v.base v.len) ≡ 0 = omega (arith, len, same) in
            (
              skip_empty vs,
              rw (some_left, e, f) refl,
              addresses-skip_empty vs
                  ∙ sym (
                      drop_behind (range v.base v.len) (addresses vs) n (omega (arith, len, same))
                      ∙ ap (λ m. drop m (addresses vs)) none_left),
              skip_empty-Lively vs,
            )
        | inr f ↦
            let more : v.len < n = ground arith in
            let (vec', run, at, lively) =
              advance-addresses (n - v.len) vs (omega arith) (omega (arith, all, len)) in
            (
              vec',
              rw (some_left, e, f) run,
              at
                  ∙ sym (
                      drop_behind (range v.base v.len) (addresses vs) n (omega (arith, len, more))
                      ∙ ap (λ m. drop (n - m) (addresses vs)) len),
              lively,
            )
      ]
      | inr e ↦
          let inside : n < v.len = ground arith in
          (
            record { base = v.base + n; len = v.len - n } ∷ vs,
            rw (some_left, e) refl,
            sym (drop-range v.base v.len n (addresses vs) (omega arith)),
            ground arith,
          )
    ]
