-- ===== src/MemPool/Tests.antt =====
-- A pool of three chunks of 24 bytes, and the theorems at it.
use lz_lib.Base.{ℕ, ◌+◌, ◌≤◌, ◌≡◌, ◌≢◌, refl, none, some, [], ◌∷◌, arith, All, ok, fault, aborted}
use lz_lib.MemPool.{MemPool, mem_get, mem_put}
use lz_lib.MemPool.Chunks.{IsValid, taken, mem_get-mem_put}

abbrev three : MemPool
three = record {
  chunks = 1000 ∷ 1040 ∷ 1080 ∷ [];
  hot_count = 0;
  cold_count = 3;
  padded_sizeof_type = 40;
  base = 1000;
  end = 1120;
  real_sizeof_type = 24;
}

three-IsValid : IsValid 3 three
three-IsValid = record {
  padded = refl;
  positive = omega arith;
  bound = refl;
  low = omega arith;
  free = ((0, omega arith, refl), ((1, omega arith, refl), ((2, omega arith, refl), tt)));
  apart = omega arith;
  cold = refl;
  total = refl;
  small = omega arith;
}

abbrev empty : MemPool
empty = record three { chunks = []; hot_count = 3; cold_count = 0 }

empty-IsValid : IsValid 3 empty
empty-IsValid = record {
  padded = refl;
  positive = omega arith;
  bound = refl;
  low = omega arith;
  free = tt;
  apart = tt;
  cold = refl;
  total = refl;
  small = omega arith;
}

mem_get-mem_put_example :
    (mem_get (some three) none ≡ ok (some 1016, some (taken three (1040 ∷ 1080 ∷ []))))
    × IsValid 3 (taken three (1040 ∷ 1080 ∷ []))
    × All {A = ℕ} (λ x. x ≢ 1000) (1040 ∷ 1080 ∷ [])
    × (1000 ≤ 1000)
    × (1000 + 16 + 24 ≤ 1120)
    × (mem_put (some (taken three (1040 ∷ 1080 ∷ []))) (some 1016) ≡ ok (none, some three))
mem_get-mem_put_example = mem_get-mem_put 3 1000 (1040 ∷ 1080 ∷ []) three none three-IsValid refl

-- A pointer into the middle of a chunk ends the program.
mem_put_aborts : mem_put (some three) (some 1020) ≡ fault aborted
unfolding mem_put
mem_put_aborts = refl

-- A pointer from outside is handed to `free`.
mem_put_frees : mem_put (some three) (some 5000) ≡ ok (some 5000, some three)
unfolding mem_put
mem_put_frees = refl
