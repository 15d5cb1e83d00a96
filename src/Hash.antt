-- ===== src/Hash.antt =====
-- The string hashes of src/hashfn.c, on bytes below 256. The target is little-endian, its `char` is
-- signed and its `int` has 32 bits.
pub mod Laws
mod Tests
use lz_lib.Base.{
  ℕ, zero, suc, ◌+◌, ◌-◌, ◌*◌, ◌/◌, ◌%◌, ◌^◌, bit_xor, bit_or, List, [], ◌∷◌, arith, length,
  get_elem?, Option, none, some, Run, ok, fault, bad_access, ◌>>=◌, ltb, if◌then◌else◌, u32, ◌<<<◌,
  ◌>>>◌,
}

-- A `char` converted to `uint32_t`.
unfoldable pub sign_extend : ℕ → ℕ
sign_extend c = if ltb c 128 then c else c + 2 ^ 32 - 256

-- `get16bits (d)`, of the two bytes at `d`
unfoldable pub get16bits : ℕ → ℕ → ℕ
get16bits lo hi = lo + hi * 256

-- `ReallySimpleHash`: the loop runs from `path[len]` down to `path[1]`.
pub simple_loop : List ℕ → ℕ → ℕ → Run ℕ
simple_loop path zero hash = ok hash
simple_loop path (suc len) hash = elim (get_elem? path (suc len)) [
  | none ↦ fault bad_access
  | some c ↦ simple_loop path len (bit_xor hash (sign_extend c))
]

unfoldable pub really_simple_hash : List ℕ → ℕ → Run ℕ
unfolding simple_loop
really_simple_hash path len = simple_loop path len 0

-- `SuperFastHash`: a round of the main loop on four bytes.
unfoldable pub fast_round : ℕ → ℕ → ℕ → ℕ → ℕ → ℕ
unfolding get16bits
fast_round hash a b c d =
    let h₁ = u32 (hash + get16bits a b) in
    let tmp = bit_xor (get16bits c d <<< 11) h₁ in
    let h₂ = bit_xor (u32 (h₁ <<< 16)) tmp in u32 (h₂ + (h₂ >>> 11))

-- The cases of `switch (rem)`.
unfoldable pub fast_tail3 : ℕ → ℕ → ℕ → ℕ → ℕ
unfolding get16bits sign_extend
fast_tail3 hash a b c =
    let h₁ = u32 (hash + get16bits a b) in
    let h₂ = bit_xor h₁ (u32 (h₁ <<< 16)) in
    let h₃ = bit_xor h₂ (u32 (sign_extend c <<< 18)) in u32 (h₃ + (h₃ >>> 11))

unfoldable pub fast_tail2 : ℕ → ℕ → ℕ → ℕ
unfolding get16bits
fast_tail2 hash a b =
    let h₁ = u32 (hash + get16bits a b) in
    let h₂ = bit_xor h₁ (u32 (h₁ <<< 11)) in u32 (h₂ + (h₂ >>> 17))

unfoldable pub fast_tail1 : ℕ → ℕ → ℕ
unfolding sign_extend
fast_tail1 hash a =
    let h₁ = u32 (hash + sign_extend a) in
    let h₂ = bit_xor h₁ (u32 (h₁ <<< 10)) in u32 (h₂ + (h₂ >>> 1))

-- The main loop, and the switch on what is left.
unfoldable pub fast_loop : ℕ → List ℕ → ℕ
unfolding fast_round fast_tail1 fast_tail2 fast_tail3
fast_loop hash [] = hash
fast_loop hash (a ∷ []) = fast_tail1 hash a
fast_loop hash (a ∷ b ∷ []) = fast_tail2 hash a b
fast_loop hash (a ∷ b ∷ c ∷ []) = fast_tail3 hash a b c
fast_loop hash (a ∷ b ∷ c ∷ d ∷ rest) = fast_loop (fast_round hash a b c d) rest

-- The "avalanching" at the end.
unfoldable pub avalanche : ℕ → ℕ
avalanche h =
    let h₁ = bit_xor h (u32 (h <<< 3)) in
    let h₂ = u32 (h₁ + (h₁ >>> 5)) in
    let h₃ = bit_xor h₂ (u32 (h₂ <<< 4)) in
    let h₄ = u32 (h₃ + (h₃ >>> 17)) in
    let h₅ = bit_xor h₄ (u32 (h₄ <<< 25)) in u32 (h₅ + (h₅ >>> 6))

-- `SuperFastHash (data, len)` on a string of `len` bytes.
unfoldable pub super_fast_hash : List ℕ → ℕ
unfolding fast_loop avalanche
super_fast_hash key = if ltb 1 (length key) then avalanche (fast_loop (length key) key) else 1

-- Four words, `uint32_t array[4]`.
pub record Quad : Type 0 where
  pub w0 : ℕ
  pub w1 : ℕ
  pub w2 : ℕ
  pub w3 : ℕ

-- The `do` loop of `dm_round`, with `rounds` rounds left; the sum and the two halves change.
pub dm_loop : ℕ → Quad → ℕ → ℕ → ℕ → ℕ × ℕ
dm_loop zero q sum b0 b1 = (b0, b1)
dm_loop (suc rounds) q sum b0 b1 =
    let sum' = u32 (sum + 0x9E3779B9) in
    let b0' = u32 (
      b0
      + bit_xor (bit_xor (u32 (u32 (b1 <<< 4) + q.w0)) (u32 (b1 + sum')))
          (u32 ((b1 >>> 5) + q.w1))) in
    let b1' = u32 (
      b1
      + bit_xor (bit_xor (u32 (u32 (b0' <<< 4) + q.w2)) (u32 (b0' + sum')))
          (u32 ((b0' >>> 5) + q.w3))) in
    dm_loop rounds q sum' b0' b1'

-- `dm_round`: the two halves `*h0` and `*h1` after the rounds.
unfoldable pub dm_round : ℕ → Quad → ℕ × ℕ → ℕ × ℕ
unfolding dm_loop
dm_round rounds q h = let b = dm_loop rounds q 0 h.0 h.1 in (u32 (h.0 + b.0), u32 (h.1 + b.1))

-- A little-endian word.
unfoldable pub word : ℕ → ℕ → ℕ → ℕ → ℕ
word a b c d = a + b * 2 ^ 8 + c * 2 ^ 16 + d * 2 ^ 24

-- `__pad (len)`
unfoldable pub pad_word : ℕ → ℕ
pad_word len = let pad = bit_or (u32 len) (u32 (u32 len <<< 8)) in bit_or pad (u32 (pad <<< 16))

-- The `while (full_bytes)` loop: the bytes left are shifted into the padding.
pub pad_bytes : ℕ → List ℕ → ℕ
pad_bytes w [] = w
pad_bytes w (c ∷ rest) = pad_bytes (bit_or (u32 (w <<< 8)) (sign_extend c)) rest

-- One word of the last array, and the bytes behind it. Fewer than four bytes are no full word.
unfoldable pub take_word : ℕ → List ℕ → ℕ × List ℕ
unfolding pad_bytes word sign_extend
take_word pad (a ∷ b ∷ c ∷ d ∷ rest) = (word a b c d, rest)
take_word pad rest = (pad_bytes pad rest, [])

-- `array[0]` to `array[3]`, and the bytes behind.
unfoldable pub take_quad : ℕ → List ℕ → Quad × List ℕ
unfolding take_word
take_quad pad msg =
    let r0 = take_word pad msg in
    let r1 = take_word pad r0.1 in
    let r2 = take_word pad r1.1 in
    let r3 = take_word pad r2.1 in (record { w0 = r0.0; w1 = r1.0; w2 = r2.0; w3 = r3.0 }, r3.1)

-- The loop over the full quads of the message. (Sixteen bytes are four full words.)
pub dm_quads : ℕ → ℕ → ℕ × ℕ → List ℕ → (ℕ × ℕ) × List ℕ
dm_quads zero pad h msg = (h, msg)
dm_quads (suc n) pad h msg = let r = take_quad pad msg in dm_quads n pad (dm_round 6 r.0 h) r.1

-- `dm_hashfn (msg, len)` on a message of `len` bytes.
unfoldable pub dm_hash : List ℕ → ℕ
unfolding dm_quads take_quad dm_round pad_word
dm_hash msg =
    let len = length msg in
    let pad = pad_word len in
    let quads = dm_quads (len / 16) pad (0x9464a485, 0x542e1a94) msg in
    let h = dm_round 10 (take_quad pad quads.1).0 quads.0 in bit_xor h.0 h.1
