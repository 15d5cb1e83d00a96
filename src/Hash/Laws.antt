-- ===== src/Hash/Laws.antt =====
-- What the string hashes read, and the range of their results.
use lz_lib.Base.{
  ℕ, zero, suc, ◌-◌, ◌*◌, ◌/◌, ◌%◌, ◌^◌, ◌<◌, ◌≡◌, refl, inl, inr, List, [], ◌∷◌, arith, length,
  get_elem?, ltb, Bool-cases, Option-cases, bit_xor,
}
use lz_lib.Hash.{
  sign_extend, simple_loop, really_simple_hash, super_fast_hash, take_word, take_quad, dm_quads,
}

pub super_fast_hash-lt : (key : List ℕ) → super_fast_hash key < 2 ^ 32
unfolding super_fast_hash
super_fast_hash-lt key = elim (Bool-cases (ltb 1 (length key))) [
  | inl t ↦ rw t (omega arith)
  | inr f ↦ rw f (omega arith)
]

simple_loop_first :
    (a b : ℕ) (path : List ℕ) (n h : ℕ) → simple_loop (a ∷ path) n h ≡ simple_loop (b ∷ path) n h
unfolding simple_loop
simple_loop_first a b path zero h = refl
simple_loop_first a b path (suc n) h = elim (Option-cases (get_elem? path n)) [
  | inl e ↦ rw (e, simple_loop)
  | inr (c, e) ↦ rw (e, simple_loop) (simple_loop_first a b path n (bit_xor h (sign_extend c)))
]

-- The first byte of the path does not count, at any length.
pub really_simple_hash_first :
    (a b : ℕ) (path : List ℕ) (len : ℕ)
    → really_simple_hash (a ∷ path) len ≡ really_simple_hash (b ∷ path) len
unfolding really_simple_hash
really_simple_hash_first a b path len = simple_loop_first a b path len 0

take_word-length : (pad : ℕ) (msg : List ℕ) → length (take_word pad msg).1 ≡ length msg - 4
unfolding take_word
take_word-length pad [] = omega arith
take_word-length pad (a ∷ []) = omega arith
take_word-length pad (a ∷ b ∷ []) = omega arith
take_word-length pad (a ∷ b ∷ c ∷ []) = omega arith
take_word-length pad (a ∷ b ∷ c ∷ d ∷ rest) = omega arith

take_quad-length : (pad : ℕ) (msg : List ℕ) → length (take_quad pad msg).1 ≡ length msg - 16
unfolding take_quad
take_quad-length pad msg =
    let r0 = (take_word pad msg).1 in
    let r1 = (take_word pad r0).1 in
    let r2 = (take_word pad r1).1 in
    omega (
      arith,
      take_word-length pad msg,
      take_word-length pad r0,
      take_word-length pad r1,
      take_word-length pad r2,
    )

dm_quads-length :
    (n pad : ℕ) (h : ℕ × ℕ) (msg : List ℕ) → length (dm_quads n pad h msg).1 ≡ length msg - 16 * n
unfolding dm_quads
dm_quads-length zero pad h msg = omega arith
dm_quads-length (suc n) pad h msg =
    omega (arith, take_quad-length pad msg, dm_quads-length n pad _ (take_quad pad msg).1)

-- The loop over the full quads leaves the bytes past the last multiple of sixteen, and the last array
-- takes all of these: of the message no byte is left.
dm_quads_reads_all :
    (pad : ℕ) (h : ℕ × ℕ) (msg : List ℕ)
    → let rest = (dm_quads (length msg / 16) pad h msg).1 in
      (length rest ≡ length msg % 16) × (length (take_quad pad rest).1 ≡ 0)
dm_quads_reads_all pad h msg =
    let rest = (dm_quads (length msg / 16) pad h msg).1 in
    let e = dm_quads-length (length msg / 16) pad h msg in
    (omega (arith, e), omega (arith, e, take_quad-length pad rest))
