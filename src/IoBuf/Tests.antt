-- ===== src/IoBuf/Tests.antt =====
-- A pool of arenas with two buffers of ten bytes, and the theorems at it.
use lz_lib.Base.{
  List, ◌++◌, ℕ, ◌>>=◌, ◌≡◌, refl, true, false, none, some, [], ◌∷◌, arith, inc32, replicate, ok,
  ◌==◌, if◌then◌else◌,
}
use lz_lib.IoBuf.{Arena, Pool, Buffer, Grant, iobuf_cnt, put_ref, iobuf_pool_prune, iobuf_pool_new}
use lz_lib.IoBuf.Transfer.{iobuf_get, iobuf_put_to}
use lz_lib.IoBuf.Prune.{busy, iobuf_pool_prune-busy}
use lz_lib.IoBuf.Counted.{Counted, IsValid}
use lz_lib.IoBuf.Lending.{lent, after_get}
use lz_lib.IoBuf.Returning.{returned}
use lz_lib.IoBuf.Counts.{iobuf_get-first_free, iobuf_put_to-IsValid}
use lz_lib.IoBuf.Iobref.{Iobref}

abbrev half : Arena
half = record {
  id = 7;
  mem_base = 100;
  active_cnt = 1;
  active = 1 ∷ [];
  passive_cnt = 1;
  passive = 0 ∷ [];
}

abbrev unused : Arena
unused = record {
  id = 8;
  mem_base = 200;
  active_cnt = 0;
  active = [];
  passive_cnt = 2;
  passive = 1 ∷ 0 ∷ [];
}

abbrev pool : Pool
pool = record {
  page_size = 10;
  arena_size = 25;
  arena_cnt = 2;
  arenas = half ∷ [];
  filled = [];
  purge = unused ∷ [];
  refs = λ a i. if a == 7 then i else 0;
}

half-Counted : Counted 2 half
half-Counted = record { actives = refl; passives = refl; total = refl }

unused-Counted : Counted 2 unused
unused-Counted = record { actives = refl; passives = refl; total = refl }

pool-IsValid : IsValid pool
unfolding iobuf_cnt
pool-IsValid = record {
  page = omega arith;
  room = omega arith;
  small = omega arith;
  in_arenas = (half-Counted, tt);
  in_filled = tt;
  in_purge = (unused-Counted, tt);
}

abbrev grant : Grant
grant = record { arena = none; mem = none; iobufs = false }

iobuf_get-first_free_example :
    (i : ℕ) × (rest : List ℕ) × (pool' : Pool) × (half.passive ≡ i ∷ rest)
    × (pool' ≡ record (after_get pool [] [] (lent i rest half) rest) {
      refs = put_ref (record { arena = 7; place = i }) (inc32 (pool.refs 7 i)) pool.refs;
    })
    × (iobuf_get grant pool ≡ ok (some (record { arena = 7; place = i }), pool'))
    × IsValid pool'
iobuf_get-first_free_example =
    iobuf_get-first_free grant pool half [] [] pool-IsValid tt (λ e. absurd (omega (arith, e))) tt
      tt ((λ e. absurd (omega (arith, e))), tt)

abbrev second : Buffer
second = record { arena = 7; place = 1 }

iobuf_put_to-IsValid_example :
    (pool' : Pool) × (pool'
      ≡ record pool { arenas = []; purge = pool.purge ++ returned 1 [] half ∷ [] })
    × (iobuf_put_to pool second ≡ ok pool')
    × IsValid pool'
iobuf_put_to-IsValid_example =
    iobuf_put_to-IsValid false pool [] [] half 1 [] [] pool-IsValid tt tt
      ((λ e. absurd (omega (arith, e))), tt) refl tt ((λ e. absurd (omega (arith, e))), tt)

iobuf_pool_prune-busy_example :
    iobuf_pool_prune pool ≡ ok (record pool { purge = busy pool.purge; arena_cnt = 1 })
iobuf_pool_prune-busy_example =
    iobuf_pool_prune-busy pool half [] refl (omega arith) ((λ i low idle. refl), tt) (omega arith)
      (omega arith)

abbrev one_held : Iobref
one_held = record { ref = 1; iobrefs = some second ∷ replicate 7 none }

abbrev all_held : Iobref
all_held = record { ref = 1; iobrefs = replicate 8 (some second) }

-- A new pool has one arena, and its last buffer goes out first.
new_pool_gives :
    iobuf_pool_new true (record { arena = some 5; mem = some 900; iobufs = true }) 25 10
      >>= (λ p. elim p [ none ↦ ok none | some q ↦ iobuf_get grant q >>= λ r. ok r.0 ])
    ≡ ok (some (record { arena = 5; place = 1 }))
unfolding iobuf_pool_new iobuf_get
new_pool_gives = refl
