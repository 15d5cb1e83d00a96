-- ===== src/Checksum.antt =====
-- The checksums of src/checksum.c. The target's `signed char` is a byte below 256, sign-extended to 32
-- bits; sums are of `uint32_t`.
pub mod Unrolled
mod Tests
use lz_lib.Base.{ℕ, ◌+◌, ◌*◌, ◌%◌, ◌^◌, List, [], ◌∷◌, u32, ◌<<<◌}
use lz_lib.Hash.{sign_extend}

-- The second loop: one byte a round.
pub weak_bytes : ℕ → ℕ → List ℕ → ℕ × ℕ
weak_bytes s1 s2 [] = (s1, s2)
weak_bytes s1 s2 (a ∷ rest) = let s = u32 (s1 + sign_extend a) in weak_bytes s (u32 (s2 + s)) rest

-- The first loop: four bytes a round, while more than four are left (`i < len - 4`). The second loop takes
-- the others.
pub weak_blocks : ℕ → ℕ → List ℕ → ℕ × ℕ
unfolding weak_bytes
weak_blocks s1 s2 (a ∷ b ∷ c ∷ d ∷ e ∷ rest) =
    let total =
      u32 (
        s2
        + 4 * u32 (s1 + sign_extend a)
        + 3 * sign_extend b
        + 2 * sign_extend c
        + sign_extend d) in
    let sum = u32 (s1 + sign_extend a + sign_extend b + sign_extend c + sign_extend d) in
    weak_blocks sum total (e ∷ rest)
weak_blocks s1 s2 rest = weak_bytes s1 s2 rest

-- `rsync_weak_checksum (buf, len)` of a buffer of `len` bytes. (`s1 & 0xffff` is a remainder.)
pub rsync_weak_checksum : List ℕ → ℕ
unfolding weak_blocks
rsync_weak_checksum buf = let s = weak_blocks 0 0 buf in u32 (s.0 % 2 ^ 16 + u32 (s.1 <<< 16))

-- The calls of src/md5.c: `md5_begin`, `md5_update` and `md5_result`.
pub record Md5 : Type 1 where
  pub Context : Type 0
  pub begin : Context
  pub update : Context → List ℕ → Context
  pub result : Context → List ℕ

-- `rsync_strong_checksum`
unfoldable pub rsync_strong_checksum : Md5 → List ℕ → List ℕ
rsync_strong_checksum md5 buf = md5.result (md5.update md5.begin buf)
