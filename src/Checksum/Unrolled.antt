-- ===== src/Checksum/Unrolled.antt =====
-- The unrolled loop against sums over the bytes.
use lz_lib.Base.{
  ◌/◌, length, sym, ℕ, suc, ◌+◌, ◌*◌, ◌%◌, ◌^◌, ◌≡◌, refl, ap, ◌∙◌, List, [], ◌∷◌, arith, u32,
  ◌<<<◌,
}
use mathlib.Core.Path.{ap₂}
use lz_lib.Hash.{sign_extend}
use lz_lib.Checksum.{weak_bytes, weak_blocks, rsync_weak_checksum}

round4 :
    (s1 s2 a b c d : ℕ) (rest : List ℕ)
    → weak_bytes s1 s2 (a ∷ b ∷ c ∷ d ∷ rest)
      ≡ weak_bytes
          (u32 (s1 + sign_extend a + sign_extend b + sign_extend c + sign_extend d))
          (u32 (
            s2
            + 4 * u32 (s1 + sign_extend a)
            + 3 * sign_extend b
            + 2 * sign_extend c
            + sign_extend d))
          rest
unfolding weak_bytes
round4 s1 s2 a b c d rest = ap₂ (λ x y. weak_bytes x y rest) (omega arith) (omega arith)

weak_blocks-weak_bytes : (s1 s2 : ℕ) (buf : List ℕ) → weak_blocks s1 s2 buf ≡ weak_bytes s1 s2 buf
unfolding weak_blocks
weak_blocks-weak_bytes s1 s2 [] = refl
weak_blocks-weak_bytes s1 s2 (a ∷ []) = refl
weak_blocks-weak_bytes s1 s2 (a ∷ b ∷ []) = refl
weak_blocks-weak_bytes s1 s2 (a ∷ b ∷ c ∷ []) = refl
weak_blocks-weak_bytes s1 s2 (a ∷ b ∷ c ∷ d ∷ []) = refl
weak_blocks-weak_bytes s1 s2 (a ∷ b ∷ c ∷ d ∷ e ∷ rest) =
    let total =
      u32 (
        s2
        + 4 * u32 (s1 + sign_extend a)
        + 3 * sign_extend b
        + 2 * sign_extend c
        + sign_extend d) in
    weak_blocks-weak_bytes
      (u32 (s1 + sign_extend a + sign_extend b + sign_extend c + sign_extend d)) total (e ∷ rest)
    ∙ sym (round4 s1 s2 a b c d (e ∷ rest))

-- The sum of the bytes.
abbrev pub byte_sum : List ℕ → ℕ
byte_sum [] = 0
byte_sum (a ∷ rest) = sign_extend a + byte_sum rest

-- Each byte counts once for itself and once for each byte behind it.
abbrev pub weighted_sum : List ℕ → ℕ
weighted_sum [] = 0
weighted_sum (a ∷ rest) = (length rest + 1) * sign_extend a + weighted_sum rest

spread : (n a b : ℕ) → n * (a + 2 ^ 32 * b) ≡ n * a + 2 ^ 32 * (n * b)
spread n a b = grind arith

times-u32 : (n x : ℕ) → u32 (n * u32 x) ≡ u32 (n * x)
times-u32 n x =
    let whole : x ≡ u32 x + 2 ^ 32 * (x / 2 ^ 32) = omega arith in
    let product : n * x ≡ n * u32 x + 2 ^ 32 * (n * (x / 2 ^ 32)) =
      ap (λ (y : ℕ). n * y) whole ∙ spread n (u32 x) (x / 2 ^ 32) in
    omega (arith, product)

weak_bytes-sums :
    (s1 s2 : ℕ) (buf : List ℕ)
    → (u32 (weak_bytes s1 s2 buf).0 ≡ u32 (s1 + byte_sum buf))
      × (u32 (weak_bytes s1 s2 buf).1 ≡ u32 (s2 + length buf * s1 + weighted_sum buf))
unfolding weak_bytes
weak_bytes-sums s1 s2 [] = (omega arith, omega arith)
weak_bytes-sums s1 s2 (a ∷ rest) =
    let s = u32 (s1 + sign_extend a) in
    let (one, two) = weak_bytes-sums s (u32 (s2 + s)) rest in
    let more = times-u32 (length rest) (s1 + sign_extend a) in
    let spread : length rest * (s1 + sign_extend a)
        ≡ length rest * s1 + length rest * sign_extend a =
      grind arith in
    let own : (length rest + 1) * sign_extend a ≡ length rest * sign_extend a + sign_extend a =
      grind arith in
    let all : suc (length rest) * s1 ≡ length rest * s1 + s1 = grind arith in
    (omega (arith, one), omega (arith, two, more, spread, own, all))

-- `rsync_weak_checksum`, with its loop unrolled to four bytes, has the lower half of the sum of the signed
-- bytes in its lower half. In its upper half it has the lower half of the sum in which each byte counts once
-- for itself and once for each byte behind it.
pub rsync_weak_checksum-sums :
    (buf : List ℕ)
    → rsync_weak_checksum buf ≡ u32 (byte_sum buf % 2 ^ 16 + (weighted_sum buf <<< 16))
unfolding rsync_weak_checksum
rsync_weak_checksum-sums buf =
    let (one, two) = weak_bytes-sums 0 0 buf in
    let none_more : length buf * 0 ≡ 0 = grind arith in
    ap (λ s. u32 (s.0 % 2 ^ 16 + u32 (s.1 <<< 16))) (weak_blocks-weak_bytes 0 0 buf)
    ∙ omega (arith, one, two, none_more)
