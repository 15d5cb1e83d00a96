-- ===== src/IoBuf.antt =====
-- The buffer pool of src/iobuf.c and src/iobuf.h: arenas of equal buffers, on one of three lists each,
-- and the counted references to buffers.
--
-- A circular list with a sentinel is a `List`, the sentinel's `next` first. An arena is known by its
-- address; a buffer by its arena and its place in `iobufs`. Each function holds the pool's mutex or
-- the buffer's lock for all that it changes, and is a step, or a chain of them. What the allocator
-- returns is an argument.
pub mod Transfer
pub mod Iobref
pub mod Prune
pub mod Counted
pub mod Places
pub mod Lending
pub mod Returning
pub mod Counts
pub mod Entries
mod Tests
use lz_lib.Base.{
  ◌||◌, ℕ, zero, suc, ◌+◌, ◌-◌, ◌*◌, ◌/◌, ◌^◌, Bool, true, false, ◌&&◌, not, Option, none, some,
  List, [], ◌∷◌, ◌++◌, ltb, ◌==◌, if◌then◌else◌, map, u32, inc32, dec32, Run, ok, fault, bad_access,
  div_by_zero, aborted, ◌>>=◌, ◌>>◌,
}

-- `struct iobuf_arena`; `active` and `passive` are the places of its buffers, the counts are bit
-- patterns of `int`.
pub record Arena : Type 0 where
  pub id : ℕ
  pub mem_base : ℕ
  pub active_cnt : ℕ
  pub active : List ℕ
  pub passive_cnt : ℕ
  pub passive : List ℕ

-- `struct iobuf_pool`. `refs` is the bit pattern of `iobuf->ref`, by arena and place.
pub record Pool : Type 0 where
  pub page_size : ℕ
  pub arena_size : ℕ
  pub arena_cnt : ℕ
  pub arenas : List Arena
  pub filled : List Arena
  pub purge : List Arena
  pub refs : ℕ → ℕ → ℕ

-- `struct iobuf *` into the `iobufs` of an arena.
pub record Buffer : Type 0 where
  pub arena : ℕ
  pub place : ℕ

-- What the two `calloc` and the `mmap` of a new arena return.
pub record Grant : Type 0 where
  pub arena : Option ℕ
  pub mem : Option ℕ
  pub iobufs : Bool

-- `iobuf->ptr`, in an arena of less than 2 ^ 31 bytes: `offset` is an `int`.
unfoldable pub buffer_ptr : Pool → Arena → ℕ → ℕ
buffer_ptr pool a place = a.mem_base + place * pool.page_size

-- `iobuf_cnt`
unfoldable pub iobuf_cnt : Pool → ℕ
iobuf_cnt pool = u32 (pool.arena_size / pool.page_size)

-- The loop of `__iobuf_arena_init_iobufs`: each buffer is put in front of those before it.
unfoldable pub places : ℕ → List ℕ
places zero = []
places (suc n) = n ∷ places n

-- `refs` with the counts of a new arena, or with one count changed.
unfoldable pub clear_refs : ℕ → (ℕ → ℕ → ℕ) → ℕ → ℕ → ℕ
clear_refs id refs a = if a == id then (λ i. 0) else refs a

unfoldable pub put_ref : Buffer → ℕ → (ℕ → ℕ → ℕ) → ℕ → ℕ → ℕ
put_ref b n refs a i = if (a == b.arena) && (i == b.place) then n else refs a i

-- `__iobuf_arena_init_iobufs`, of a new arena at `id` with its memory. (A negative count asks `calloc`
-- for more than there is.)
unfoldable pub iobuf_arena_init_iobufs : Bool → ℕ → ℕ → Pool → Option Arena
unfolding iobuf_cnt places
iobuf_arena_init_iobufs alloc id mem pool =
    if alloc && ltb (iobuf_cnt pool) (2 ^ 31)
    then some (record {
      id = id;
      mem_base = mem;
      active_cnt = 0;
      active = [];
      passive_cnt = iobuf_cnt pool;
      passive = places (iobuf_cnt pool);
    })
    else none

-- `__iobuf_arena_alloc`. What fails is undone by `__iobuf_arena_destroy`, which divides by the page
-- size as `__iobuf_arena_init_iobufs` does.
unfoldable pub iobuf_arena_alloc : Grant → Pool → Run (Option Arena × Pool)
unfolding iobuf_arena_init_iobufs clear_refs
iobuf_arena_alloc grant pool = elim grant.arena [
  | none ↦ ok (none, pool)
  | some id ↦
      let made : Option Arena = elim grant.mem [
        | none ↦ none
        | some mem ↦ iobuf_arena_init_iobufs grant.iobufs id mem pool
      ] in
      let next = record pool { arena_cnt = inc32 pool.arena_cnt; refs = clear_refs id pool.refs } in
      if pool.page_size == 0
      then fault div_by_zero
      else elim made [ none ↦ ok (none, pool) | some a ↦ ok (some a, next) ]
]

-- `__iobuf_arena_unprune`: the first arena of the purge list, off it.
unfoldable pub iobuf_arena_unprune : Pool → Option Arena × Pool
iobuf_arena_unprune pool = elim pool.purge [
  | [] ↦ (none, pool)
  | a ∷ rest ↦ (some a, record pool { purge = rest })
]

-- `__iobuf_pool_add_arena`
unfoldable pub iobuf_pool_add_arena : Grant → Pool → Run (Option Arena × Pool)
unfolding iobuf_arena_unprune iobuf_arena_alloc
iobuf_pool_add_arena grant pool =
    let kept = iobuf_arena_unprune pool in
    let found : Run (Option Arena × Pool) = elim kept.0 [
      | some a ↦ ok (some a, kept.1)
      | none ↦ iobuf_arena_alloc grant kept.1
    ] in
    found >>= λ r. elim r.0 [
      | none ↦ ok (none, r.1)
      | some a ↦ ok (some a, record r.1 { arenas = r.1.arenas ++ a ∷ [] })
    ]

-- `iobuf_pool_new`; the memory of the new pool is zero. A pool without an arena is returned all the same.
unfoldable pub iobuf_pool_new : Bool → Grant → ℕ → ℕ → Run (Option Pool)
unfolding iobuf_pool_add_arena
iobuf_pool_new alloc grant arena_size page_size =
    let pool : Pool = record {
      page_size = page_size;
      arena_size = arena_size;
      arena_cnt = 0;
      arenas = [];
      filled = [];
      purge = [];
      refs = λ a i. 0;
    } in
    if ltb arena_size page_size || not alloc
    then ok none
    else (iobuf_pool_add_arena grant pool >>= λ r. ok (some r.1))

-- `assert (iobuf->ref == 0)` for each of the first `n` buffers of an arena.
unfoldable pub unreferenced : (ℕ → ℕ) → ℕ → Bool
unreferenced refs zero = true
unreferenced refs (suc n) = (refs n == 0) && unreferenced refs n

-- `__iobuf_arena_destroy` with `__iobuf_arena_destroy_iobufs`.
unfoldable pub iobuf_arena_destroy : Pool → Arena → Run Pool
unfolding unreferenced iobuf_cnt
iobuf_arena_destroy pool a =
    if pool.page_size == 0
    then fault div_by_zero
    else (if unreferenced (pool.refs a.id) (iobuf_cnt pool) then ok pool else fault aborted)

-- `iobuf_pool_destroy`: the loop over the arenas. Only those with a free buffer are on that list.
unfoldable pub destroy_arenas : Pool → List Arena → Run Pool
unfolding iobuf_arena_destroy
destroy_arenas pool [] = ok pool
destroy_arenas pool (a ∷ rest) =
    iobuf_arena_destroy (record pool { arena_cnt = dec32 pool.arena_cnt }) a >>= λ p.
    destroy_arenas p rest

unfoldable pub iobuf_pool_destroy : Option Pool → Run (Option Pool)
unfolding destroy_arenas
iobuf_pool_destroy none = ok none
iobuf_pool_destroy (some pool) =
    destroy_arenas (record pool { arenas = [] }) pool.arenas >>= λ p. ok (some p)

-- The loop of `__iobuf_pool_prune`: what is kept of the list, and the pool.
unfoldable pub prune_arenas : Pool → List Arena → Run (List Arena × Pool)
unfolding iobuf_arena_destroy
prune_arenas pool [] = ok ([], pool)
prune_arenas pool (a ∷ rest) = elim (a.active_cnt == 0) [
  | false ↦ prune_arenas pool rest >>= λ r. ok (a ∷ r.0, r.1)
  | true ↦ iobuf_arena_destroy (record pool { arena_cnt = dec32 pool.arena_cnt }) a >>= λ p.
      prune_arenas p rest
]

-- `iobuf_pool_prune`: nothing while no arena has a free buffer.
unfoldable pub iobuf_pool_prune : Pool → Run Pool
unfolding prune_arenas
iobuf_pool_prune pool = elim pool.arenas [
  | [] ↦ ok pool
  | a ∷ rest ↦ prune_arenas pool pool.purge >>= λ r. ok (record r.1 { purge = r.0 })
]
