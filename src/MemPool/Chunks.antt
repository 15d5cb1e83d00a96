-- ===== src/MemPool/Chunks.antt =====
-- The chunks of a pool: which pointers are theirs, and that one goes out and comes back whole.
use lz_lib.Base.{
  ℕ, zero, suc, ◌+◌, ◌-◌, ◌*◌, ◌%◌, ◌^◌, ◌<◌, ◌≤◌, ◌≡◌, ◌≢◌, refl, ap, subst, true, Option, none,
  some, List, [], ◌∷◌, arith, All, length, u32, u64, inc32, dec32, ok,
}
use lz_lib.MemPool.{
  MemPool, pad_boundary, carve, mem_pool_new_fn, mem_get, mem_put, is_member, inside,
}

-- `c` is the address of chunk `i` of the `count` chunks of the block.
abbrev pub IsChunk : MemPool → ℕ → ℕ → Type 0
IsChunk pool count c = (i : ℕ) × (i < count) × (c ≡ pool.base + i * pool.padded_sizeof_type)

-- No address stands twice on the list.
abbrev pub Distinct : List ℕ → Type 0
Distinct [] = Unit {0}
Distinct (c ∷ cs) = All (λ x. x ≢ c) cs × Distinct cs

-- A pool of `count` chunks between calls. The block lies below 2 ^ 63.
pub record IsValid (count : ℕ) (pool : MemPool) : Type 0 where
  pub padded : pool.padded_sizeof_type ≡ pool.real_sizeof_type + pad_boundary
  pub positive : 0 < pool.real_sizeof_type
  pub bound : pool.end ≡ pool.base + count * pool.padded_sizeof_type
  pub low : pool.end < 2 ^ 63
  pub free : All (IsChunk pool count) pool.chunks
  pub apart : Distinct pool.chunks
  pub cold : pool.cold_count ≡ length pool.chunks
  pub total : pool.hot_count + pool.cold_count ≡ count
  pub small : count < 2 ^ 31

chunk_bounds : (base p count i : ℕ) → i < count → base + i * p + p ≤ base + count * p
chunk_bounds base p count i h = grind arith

offset_lem : (b x : ℕ) → x < 2 ^ 63 → u64 (b + x + 16 + 2 ^ 64 - 16 - b) ≡ x
offset_lem b x h = omega arith

multiple : (i p : ℕ) → 0 < p → i * p % p ≡ 0
multiple i p h = grind arith

-- A pointer behind the head of a chunk is a member.
pub is_member-chunk :
    (count i : ℕ) (pool : MemPool)
    → IsValid count pool
    → i < count
    → is_member pool (pool.base + i * pool.padded_sizeof_type + pad_boundary) ≡ inside
unfolding is_member
is_member-chunk count i pool v h =
    let p = pool.padded_sizeof_type in
    let fits = chunk_bounds pool.base p count i h in
    let low : i * p < 2 ^ 63 = omega (arith, v.bound, v.low, fits) in
    rw (offset_lem pool.base (i * p) low, multiple i p (omega (arith, v.padded)))
      (ground (arith, v.bound, v.padded, v.positive, fits))

-- The pool behind a `mem_get` that took the first chunk of the list.
abbrev pub taken : MemPool → List ℕ → MemPool
taken pool rest = record pool {
  chunks = rest;
  hot_count = inc32 pool.hot_count;
  cold_count = dec32 pool.cold_count;
}

-- On a valid pool with a free chunk, `mem_get` hands out the first one: a block of the real size
-- within the pool, that is not on the list any more. The pool stays valid, and `mem_put` of the
-- pointer brings back the pool as it was.
pub mem_get-mem_put :
    (count c : ℕ) (rest : List ℕ) (pool : MemPool) (heap : Option ℕ)
    → IsValid count pool
    → pool.chunks ≡ c ∷ rest
    → (mem_get (some pool) heap ≡ ok (some (c + pad_boundary), some (taken pool rest)))
      × IsValid count (taken pool rest)
      × All (λ x. x ≢ c) rest
      × (pool.base ≤ c)
      × (c + pad_boundary + pool.real_sizeof_type ≤ pool.end)
      × (mem_put (some (taken pool rest)) (some (c + pad_boundary)) ≡ ok (none, some pool))
unfolding mem_get mem_put
mem_get-mem_put count c rest pool heap v e =
    let free : All (IsChunk pool count) (c ∷ rest) = rw e at v.free in
    let apart : Distinct (c ∷ rest) = rw e at v.apart in
    let long : length pool.chunks ≡ suc (length rest) = ap length e in
    let (i, low, at) = free.0 in
    let fits = chunk_bounds pool.base pool.padded_sizeof_type count i low in
    let v' : IsValid count (taken pool rest) = record {
      padded = v.padded;
      positive = v.positive;
      bound = v.bound;
      low = v.low;
      free = free.1;
      apart = apart.1;
      cold = omega (arith, v.cold, long, v.total, v.small);
      total = omega (arith, v.cold, long, v.total, v.small);
      small = v.small;
    } in
    let again : is_member (taken pool rest) (c + pad_boundary) ≡ inside =
      rw at (is_member-chunk count i (taken pool rest) v' low) in
    (
      ground (arith, v.cold, long),
      v',
      apart.0,
      omega (arith, at),
      omega (arith, at, fits, v.padded, v.bound),
      rw (mem_put, again) (ground (arith, v.cold, long, v.total, v.small)),
    )

-- Once the list is empty, `mem_get` passes on what `malloc` returns, and the pool is unchanged.
mem_get-exhausted :
    (count : ℕ) (pool : MemPool) (heap : Option ℕ)
    → IsValid count pool
    → pool.chunks ≡ []
    → mem_get (some pool) heap ≡ ok (heap, some pool)
unfolding mem_get
mem_get-exhausted count pool heap v e =
    let none_left : length pool.chunks ≡ 0 = ap length e in ground (arith, v.cold, none_left)

carve-chunks :
    (n i count base p : ℕ)
    → i + n ≡ count
    → All (λ c. (j : ℕ) × (j < count) × (c ≡ base + j * p)) (carve n (base + i * p) p)
unfolding carve
carve-chunks zero i count base p e = tt
carve-chunks (suc n) i count base p e =
    let next : base + i * p + p ≡ base + (i + 1) * p = grind arith in
    ((i, omega (arith, e), refl), rw next (carve-chunks n (i + 1) count base p (omega (arith, e))))

carve-above : (n a p b : ℕ) → b < a → All (λ c. c ≢ b) (carve n a p)
unfolding carve
carve-above zero a p b h = tt
carve-above (suc n) a p b h = (omega arith, carve-above n (a + p) p b (omega arith))

carve-Distinct : (n a p : ℕ) → 0 < p → Distinct (carve n a p)
unfolding carve
carve-Distinct zero a p h = tt
carve-Distinct (suc n) a p h =
    (carve-above n (a + p) p a (omega arith), carve-Distinct n (a + p) p h)

carve-length : (n a p : ℕ) → length (carve n a p) ≡ n
unfolding carve
carve-length zero a p = refl
carve-length (suc n) a p = ap suc (carve-length n (a + p) p)

-- With both allocations, a positive size and a positive count, `mem_pool_new_fn` makes a valid pool of
-- that many chunks, all of them free.
mem_pool_new_fn-IsValid :
    (size count base : ℕ)
    → 0 < size
    → 0 < count
    → count < 2 ^ 31
    → base + count * (size + pad_boundary) < 2 ^ 63
    → (pool : MemPool) × (mem_pool_new_fn size count true (some base) ≡ some pool)
      × IsValid count pool
      × (length pool.chunks ≡ count)
unfolding mem_pool_new_fn
mem_pool_new_fn-IsValid size count base s c few low =
    let padded = size + pad_boundary in
    (
      record {
        chunks = carve count base padded;
        hot_count = 0;
        cold_count = u32 count;
        padded_sizeof_type = padded;
        base = base;
        end = base + count * padded;
        real_sizeof_type = size;
      },
      ground arith,
      record {
        padded = refl;
        positive = s;
        bound = refl;
        low = low;
        free =
            subst
              (λ a.
                All (λ x. (j : ℕ) × (j < count) × (x ≡ base + j * padded)) (carve count a padded))
              (omega arith) (carve-chunks count 0 count base padded (omega arith));
        apart = carve-Distinct count base padded (omega arith);
        cold = omega (arith, carve-length count base padded);
        total = omega arith;
        small = few;
      },
      carve-length count base padded,
    )
