-- ===== src/Checksum/Tests.antt =====
-- The weak checksum of a text that takes both loops.
use lz_lib.Base.{◌*◌, ℕ, ◌+◌, ◌%◌, ◌^◌, ◌≡◌, refl, List, [], ◌∷◌, u32, ◌<<<◌}
use lz_lib.Hash.{sign_extend}
use lz_lib.Checksum.{rsync_weak_checksum}
use lz_lib.Checksum.Unrolled.{byte_sum, weighted_sum, rsync_weak_checksum-sums}

abbrev text : List ℕ
text = 1 ∷ 2 ∷ 3 ∷ 4 ∷ 255 ∷ 6 ∷ []

rsync_weak_checksum-sums_example :
    rsync_weak_checksum text ≡ u32 (byte_sum text % 2 ^ 16 + (weighted_sum text <<< 16))
rsync_weak_checksum-sums_example = rsync_weak_checksum-sums text

-- The sum is 15; the weighted sum is 6 + 10 + 12 + 12 - 2 + 6.
rsync_weak_checksum_runs : rsync_weak_checksum text ≡ 44 * 2 ^ 16 + 15
unfolding rsync_weak_checksum sign_extend
rsync_weak_checksum_runs = refl
