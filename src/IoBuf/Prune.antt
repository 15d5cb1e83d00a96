-- ===== src/IoBuf/Prune.antt =====
-- What pruning destroys.
use lz_lib.Base.{
  ℕ, zero, suc, ◌+◌, ◌-◌, ◌^◌, ◌≤◌, ◌<◌, ◌≡◌, refl, ap, ◌∙◌, inl, inr, true, false, List, [], ◌∷◌,
  arith, ◌==◌, if◌then◌else◌, Bool-cases, All, u32, dec32, Run, ok, ◌>>=◌, ◌/◌, ==_iff,
}
use lz_lib.IoBuf.{
  Arena, Pool, iobuf_cnt, unreferenced, iobuf_arena_destroy, prune_arenas, iobuf_pool_prune,
}

-- The arenas with a buffer in use, and how many have none.
abbrev pub busy : List Arena → List Arena
busy [] = []
busy (a ∷ rest) = if a.active_cnt == 0 then busy rest else a ∷ busy rest

abbrev pub idle_count : List Arena → ℕ
idle_count [] = 0
idle_count (a ∷ rest) = if a.active_cnt == 0 then idle_count rest + 1 else idle_count rest

-- No buffer of an arena without active ones is referenced.
abbrev pub Settled : Pool → Arena → Type 0
Settled pool a = (i : ℕ) → i < iobuf_cnt pool → a.active_cnt ≡ 0 → pool.refs a.id i ≡ 0

unreferenced-all :
    (refs : ℕ → ℕ) (n : ℕ) → ((i : ℕ) → i < n → refs i ≡ 0) → unreferenced refs n ≡ true
unfolding unreferenced
unreferenced-all refs zero zeros = refl
unreferenced-all refs (suc n) zeros =
    rw (zeros n (omega arith), unreferenced-all refs n (λ i low. zeros i (omega arith))) refl

-- The pool with another number of arenas.
abbrev pub counting : Pool → ℕ → Pool
counting pool n = record pool { arena_cnt = n }

destroy-counting :
    (pool : Pool) (n : ℕ) (a : Arena)
    → 0 < pool.page_size
    → Settled pool a
    → a.active_cnt ≡ 0
    → iobuf_arena_destroy (counting pool n) a ≡ ok (counting pool n)
unfolding iobuf_arena_destroy iobuf_cnt
destroy-counting pool n a page settled idle =
    let differs : (pool.page_size == 0) ≡ false = ground arith in
    rw
      (
        differs,
        unreferenced-all (pool.refs a.id) (u32 (pool.arena_size / pool.page_size))
            (λ i low. settled i low idle),
      )
      refl

prune_arenas-busy :
    (pool : Pool) (n : ℕ) (xs : List Arena)
    → 0 < pool.page_size
    → All (Settled pool) xs
    → idle_count xs ≤ n
    → n < 2 ^ 32
    → prune_arenas (counting pool n) xs ≡ ok (busy xs, counting pool (n - idle_count xs))
unfolding prune_arenas
prune_arenas-busy pool n [] page settled enough small =
    let same : n ≡ n - 0 = omega arith in ap (λ m. ok ([], counting pool m)) same
prune_arenas-busy pool n (a ∷ rest) page settled enough small =
    elim (Bool-cases (a.active_cnt == 0)) [
      | inr used ↦
          let rec = prune_arenas-busy pool n rest page settled.1 (ground arith) small in
          rw (prune_arenas, used, rec) refl
      | inl idle ↦
          let one : idle_count rest + 1 ≤ n = ground arith in
          let same : dec32 n ≡ n - 1 = omega arith in
          let left : n - 1 - idle_count rest ≡ n - (idle_count rest + 1) = omega arith in
          let gone =
            destroy-counting pool (n - 1) a page settled.0 ((==_iff a.active_cnt 0).0 idle) in
          let rec =
            prune_arenas-busy pool (n - 1) rest page settled.1 (omega arith) (omega arith) in
          rw (prune_arenas, idle, same, gone, ◌>>=◌, rec, left) refl
    ]

-- While an arena has a free buffer, pruning keeps of the purge list exactly the arenas with a buffer in
-- use, in their order, and counts the others off; the two other lists stay. It aborts on none of them,
-- if no buffer of an idle arena is referenced.
pub iobuf_pool_prune-busy :
    (pool : Pool) (first : Arena) (others : List Arena)
    → pool.arenas ≡ first ∷ others
    → 0 < pool.page_size
    → All (Settled pool) pool.purge
    → idle_count pool.purge ≤ pool.arena_cnt
    → pool.arena_cnt < 2 ^ 32
    → iobuf_pool_prune pool
      ≡ ok (record pool {
        purge = busy pool.purge;
        arena_cnt = pool.arena_cnt - idle_count pool.purge;
      })
unfolding iobuf_pool_prune
iobuf_pool_prune-busy pool first others free page settled enough small =
    let rest = prune_arenas pool pool.purge >>= λ r. ok (record r.1 { purge = r.0 }) in
    let pruned : Run Pool = ok (record pool {
      purge = busy pool.purge;
      arena_cnt = pool.arena_cnt - idle_count pool.purge;
    }) in
    let run = prune_arenas-busy pool pool.arena_cnt pool.purge page settled enough small in
    let behind : rest ≡ pruned = ap (λ m. m >>= λ r. ok (record r.1 { purge = r.0 })) run in
    ap (λ (xs : List Arena). elim xs [ [] ↦ ok pool | a ∷ more ↦ rest ]) free ∙ behind
