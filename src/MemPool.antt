-- ===== src/MemPool.antt =====
-- The memory pool of src/mem-pool.c and src/mem-pool.h: one block cut into chunks, the free ones on a
-- list. A chunk begins with its list head, of 16 bytes, and the caller gets what is behind it.
--
-- Addresses are numbers that do not wrap within a block. What `calloc` and `malloc` return is an
-- argument, none when they fail. Each function holds the pool's lock for all that it does.
pub mod Chunks
mod Tests
use lz_lib.Base.{
  ℕ, zero, suc, ◌+◌, ◌-◌, ◌*◌, ◌%◌, ◌^◌, Bool, true, false, ◌||◌, Option, none, some, List, [], ◌∷◌,
  ltb, leb, ◌==◌, if◌then◌else◌, u32, u64, inc32, dec32, Run, ok, fault, aborted, bad_access,
}

-- `struct mem_pool`; `chunks` are the addresses on the list, the counts are bit patterns of `int`. The
-- sizes are numbers: `real_sizeof_type`, an `int`, is below 2 ^ 31, and the padded size and the block
-- fit an `unsigned long`.
pub record MemPool : Type 0 where
  pub chunks : List ℕ
  pub hot_count : ℕ
  pub cold_count : ℕ
  pub padded_sizeof_type : ℕ
  pub base : ℕ
  pub end : ℕ
  pub real_sizeof_type : ℕ

-- `LZ_MEM_POOL_PAD_BOUNDARY`
abbrev pub pad_boundary : ℕ
pad_boundary = 16

-- The loop of `mem_pool_new_fn`: the list of `left` chunks from `address`, in order.
unfoldable pub carve : ℕ → ℕ → ℕ → List ℕ
carve zero address step = []
carve (suc left) address step = address ∷ carve left (address + step) step

-- `mem_pool_new_fn`: `head` is whether the pool's record could be allocated, `block` the chunks.
unfoldable pub mem_pool_new_fn : ℕ → ℕ → Bool → Option ℕ → Option MemPool
unfolding carve
mem_pool_new_fn sizeof_type count head none = none
mem_pool_new_fn sizeof_type count head (some base) =
    let padded = sizeof_type + pad_boundary in
    let made = some (record {
      chunks = carve count base padded;
      hot_count = 0;
      cold_count = u32 count;
      padded_sizeof_type = padded;
      base = base;
      end = base + count * padded;
      real_sizeof_type = sizeof_type;
    }) in
    if (sizeof_type == 0) || (count == 0) then none else (if head then made else none)

-- `mem_get`: a chunk from the list while `cold_count` says that there is one, and else memory from
-- `malloc`. An empty list with a count above zero would hand out its own head.
unfoldable pub mem_get : Option MemPool → Option ℕ → Run (Option ℕ × Option MemPool)
mem_get none heap = ok (none, none)
mem_get (some pool) heap = if pool.cold_count == 0 then ok (heap, some pool) else elim pool.chunks [
  | [] ↦ fault bad_access
  | c ∷ rest ↦ ok (
    some (c + pad_boundary),
    some (record pool {
      chunks = rest;
      hot_count = inc32 pool.hot_count;
      cold_count = dec32 pool.cold_count;
    }),
  )
]

-- The answers 1, 0 and -1 of `__is_member`.
pub data Member : Type 0 where
  inside outside misaligned : Member

-- `__is_member`. The difference of the addresses is taken in `unsigned long`.
unfoldable pub is_member : MemPool → ℕ → Member
is_member pool ptr =
    if ltb ptr pool.base || leb pool.end ptr
    then outside
    else (if u64 (ptr + 2 ^ 64 - pad_boundary - pool.base) % pool.padded_sizeof_type == 0
        then inside
        else misaligned)

-- `mem_put`: the pool, and the memory that is handed to `free`. A null pointer changes nothing.
unfoldable pub mem_put : Option MemPool → Option ℕ → Run (Option ℕ × Option MemPool)
unfolding is_member
mem_put none ptr = ok (none, none)
mem_put (some pool) none = ok (none, some pool)
mem_put (some pool) (some ptr) = elim (is_member pool ptr) [
  | inside ↦ ok (
    none,
    some (record pool {
      chunks = (ptr - pad_boundary) ∷ pool.chunks;
      hot_count = dec32 pool.hot_count;
      cold_count = inc32 pool.cold_count;
    }),
  )
  | misaligned ↦ fault aborted
  | outside ↦ ok (some ptr, some pool)
]

-- `mem_pool_destroy`: the block that is handed to `free`, and the pool, which is gone.
unfoldable pub mem_pool_destroy : Option MemPool → Option ℕ × Option MemPool
mem_pool_destroy none = (none, none)
mem_pool_destroy (some pool) = (some pool.base, none)
