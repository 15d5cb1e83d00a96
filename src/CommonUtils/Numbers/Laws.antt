-- ===== src/CommonUtils/Numbers/Laws.antt =====
-- What the conversions of src/common-utils.c accept, and what they store.
use lz_lib.Base.{
  ltb→lt, ℕ, ◌+◌, ◌-◌, ◌%◌, ◌<◌, ◌≡◌, ◌≢◌, ◌⊎◌, inl, inr, refl, true, false, not, ◌&&◌, ◌||◌, none,
  some, List, [], ◌∷◌, ltb, ◌==◌, arith, Bool-cases,
}
use native.Mathlib.Nat.{mod-eq_of_lt}
use lz_lib.Base.Int.{ℤ, pos, negsuc, ltb_ℤ}
use lz_lib.CommonUtils.{Converted, Libc, Answer, einval, erange}
use lz_lib.CommonUtils.Numbers.{
  failed, finish, minus_first, string2unsigned, wrap, or_zero, or_zero_ℤ, narrow_signed,
  narrow_unsigned,
}

-- The conversion took the whole text, without an error.
abbrev pub Whole : {A : Type 0} → Converted A → Type 0
Whole c = (c.errno ≢ erange) × (c.errno ≢ einval) × (c.tail ≡ [])

-- From -h up to h - 1
abbrev pub Within : ℕ → ℤ → Type 0
Within h (pos n) = n < h
Within h (negsuc n) = n < h

-- The value is stored and `Good`, or the call fails, stores nothing and the value is not `Good`.
abbrev pub Exact : {A : Type 0} → Answer A → A → Type 0 → Type 0
Exact r v Good =
    (Good × (r.ret ≡ pos 0) × (r.stored ≡ some v))
    ⊎ ((¬ Good) × (r.ret ≡ negsuc 0) × (r.stored ≡ none))

List-cases : {A : Type 0} (xs : List A) → (xs ≡ []) ⊎ ((y : A) × (ys : List A) × (xs ≡ y ∷ ys))
List-cases [] = inl refl
List-cases (y ∷ ys) = inr (y, ys, refl)

module _ {A : Type 0} where
  pub finish-Exact : (c : Converted A) (old : ℕ) → Exact (finish c old) c.value (Whole c)
  unfolding finish failed
  finish-Exact c old = elim (Bool-cases ((c.errno == erange) || (c.errno == einval))) [
    | inl bad ↦ inr (λ w. ground (arith, w.0, w.1), ground arith, ground arith)
    | inr fine ↦ elim (List-cases c.tail) [
      | inl e ↦ inl ((λ z. ground arith, λ z. ground arith, e), ground arith, ground arith)
      | inr (t, ts, e) ↦ inr (λ w. ground (arith, w.2), ground arith, ground arith)
    ]
  ]

pub wrap-Within : (h : ℕ) (v : ℤ) → Within h v → wrap h v ≡ v
unfolding wrap
wrap-Within h (pos n) w = let e : n % (h + h) ≡ n = grind arith in rw e (ground arith)
wrap-Within h (negsuc n) w = let e : n % (h + h) ≡ n = grind arith in rw e (ground arith)

Within-dec : (h : ℕ) (v : ℤ) → Within h v ⊎ (¬ Within h v)
Within-dec h (pos n) = elim (Bool-cases (ltb n h)) [
  | inl a ↦ inl (ground arith)
  | inr b ↦ inr (λ w. ground arith)
]
Within-dec h (negsuc n) = elim (Bool-cases (ltb n h)) [
  | inl a ↦ inl (ground arith)
  | inr b ↦ inr (λ w. ground arith)
]

in_range :
    (h : ℕ) (v : ℤ)
    → 0 < h
    → Within h v
    → (not (ltb_ℤ v (negsuc (h - 1))) && not (ltb_ℤ (pos (h - 1)) v)) ≡ true
in_range h (pos n) a w = ground arith
in_range h (negsuc n) a w = ground arith

out_of_range :
    (h : ℕ) (v : ℤ)
    → 0 < h
    → ¬ Within h v
    → (not (ltb_ℤ v (negsuc (h - 1))) && not (ltb_ℤ (pos (h - 1)) v)) ≡ false
out_of_range h (pos n) a w = elim (Bool-cases (ltb n h)) [
  | inl e ↦ absurd (w (ground arith))
  | inr e ↦ ground arith
]
out_of_range h (negsuc n) a w = elim (Bool-cases (ltb n h)) [
  | inl e ↦ absurd (w (ground arith))
  | inr e ↦ ground arith
]

pub narrow_signed-Exact :
    (h : ℕ) (r : Answer ℤ) (v : ℤ) (Good : Type 0)
    → 0 < h
    → Exact r v Good
    → Exact (narrow_signed h r) v (Good × Within h v)
unfolding narrow_signed failed or_zero_ℤ
narrow_signed-Exact h r v Good small x = elim x [
  | inl (g, ret, stored) ↦ elim (Within-dec h v) [
    | inl w ↦ inl (
      (g, w),
      ground (arith, ret, stored, in_range h v small w),
      ground (arith, ret, stored, in_range h v small w, wrap-Within h v w),
    )
    | inr w ↦ inr (
      λ z. w z.1,
      ground (arith, ret, stored, out_of_range h v small w),
      ground (arith, ret, stored, out_of_range h v small w),
    )
  ]
  | inr (bad, ret, stored) ↦ inr (λ z. bad z.0, ground arith, ground arith)
]

pub narrow_unsigned-Exact :
    (m : ℕ) (r : Answer ℕ) (v : ℕ) (Good : Type 0)
    → Exact r v Good
    → Exact (narrow_unsigned m r) v (Good × (v < m))
unfolding narrow_unsigned failed or_zero
narrow_unsigned-Exact m r v Good x = elim x [
  | inl (g, ret, stored) ↦ elim (Bool-cases (ltb v m)) [
    | inl w ↦
        let e : v % m ≡ v = mod-eq_of_lt (ltb→lt v m w) in
        inl ((g, ground arith), ground arith, ground (arith, e))
    | inr w ↦ inr (λ z. ground (arith, z.1), ground arith, ground arith)
  ]
  | inr (bad, ret, stored) ↦ inr (λ z. bad z.0, ground arith, ground arith)
]

pub string2unsigned-Exact :
    (libc : Libc) (convert : List ℕ → ℕ → Converted ℕ) (s : List ℕ) (base old : ℕ)
    → Exact
        (string2unsigned libc convert (some s) false base old)
        (convert s base).value
        ((minus_first libc s ≡ false) × Whole (convert s base))
unfolding string2unsigned failed
string2unsigned-Exact libc convert s base old = elim (Bool-cases (minus_first libc s)) [
  | inl m ↦ inr (λ z. ground (arith, z.0), ground arith, ground arith)
  | inr m ↦ elim (finish-Exact (convert s base) old) [
    | inl (w, a, b) ↦ inl ((m, w), ground arith, ground arith)
    | inr (w, a, b) ↦ inr (λ z. w z.1, ground arith, ground arith)
  ]
]
