-- ===== src/IoBuf/Counts.antt =====
-- The counts of each arena are the lengths of its lists.
use lz_lib.Base.{
  Bool, false, ℕ, ◌≡◌, ◌≢◌, refl, ◌∙◌, some, List, [], ◌∷◌, ◌++◌, All, inc32, ok, ◌>>=◌,
}
use lz_lib.IoBuf.{put_ref, Arena, Pool, Grant, iobuf_cnt}
use lz_lib.IoBuf.Transfer.{iobuf_select_arena, iobuf_get, iobuf_put_to}
use lz_lib.IoBuf.Lending.{lent, after_get, get_from-after, some_passive}
use lz_lib.IoBuf.Returning.{returned, after_put, give_back-returned, put_to-after, arena_of-Counted}
use lz_lib.IoBuf.Places.{Apart, holding, beside, first_free-middle, arena_of-holding}
use lz_lib.IoBuf.Counted.{Counted, IsValid, All-first_free}

-- The reference counts are no part of validity.
with_refs-IsValid :
    (pool : Pool) (refs : ℕ → ℕ → ℕ) → IsValid pool → IsValid (record pool { refs = refs })
unfolding iobuf_cnt
with_refs-IsValid pool refs valid = record {
  page = valid.page;
  room = valid.room;
  small = valid.small;
  in_arenas = valid.in_arenas;
  in_filled = valid.in_filled;
  in_purge = valid.in_purge;
}

after_get-refs :
    (pool : Pool) (before after : List Arena) (v : Arena) (rest : List ℕ)
    → (after_get pool before after v rest).refs ≡ pool.refs
after_get-refs pool before after v [] = refl
after_get-refs pool before after v (j ∷ rest) = refl

-- On a valid pool where the arena `a` is the first of `arenas` with a free buffer, and stands nowhere else, whatever the allocator
-- would return, `iobuf_get` hands out the first passive buffer of `a`. The buffer is then the first active one of `a`,
-- whose counts are the lengths of its lists; if it was the last passive one, `a` goes to the front of `filled`, and else
-- it stays in its place. The pool is valid, and nothing else of it changes but the buffer's reference count, by one.
pub iobuf_get-first_free :
    (grant : Grant) (pool : Pool) (a : Arena) (before after : List Arena)
    → IsValid (holding false pool (before ++ a ∷ after))
    → All (λ x. x.passive_cnt ≡ 0) before
    → a.passive_cnt ≢ 0
    → Apart a.id before
    → Apart a.id pool.filled
    → Apart a.id pool.purge
    → (i : ℕ) × (rest : List ℕ) × (pool' : Pool) × (a.passive ≡ i ∷ rest)
      × (pool' ≡ record (after_get pool before after (lent i rest a) rest) {
        refs = put_ref (record { arena = a.id; place = i }) (inc32 (pool.refs a.id i)) pool.refs;
      })
      × (iobuf_get grant (holding false pool (before ++ a ∷ after))
          ≡ ok (some (record { arena = a.id; place = i }), pool'))
      × IsValid pool'
unfolding iobuf_get iobuf_select_arena
iobuf_get-first_free grant pool a before after valid none_free left first unfilled unpurged =
    let p = holding false pool (before ++ a ∷ after) in
    let (counted, _) =
      All-first_free (Counted (iobuf_cnt p)) p.arenas a valid.in_arenas
        (first_free-middle a after before none_free left) in
    let (i, rest, e) = some_passive a a.passive refl (λ z. left (counted.passives ∙ z)) in
    let (run, valid') =
      get_from-after pool a before after valid counted first unfilled unpurged i rest e in
    (
      i,
      rest,
      record (after_get pool before after (lent i rest a) rest) {
        refs = put_ref (record { arena = a.id; place = i }) (inc32 (pool.refs a.id i)) pool.refs;
      },
      e,
      refl,
      rw
          (
            first_free-middle a after before none_free left,
            ◌>>=◌,
            run,
            after_get-refs pool before after (lent i rest a) rest,
          )
          refl,
      with_refs-IsValid (after_get pool before after (lent i rest a) rest) _ valid',
    )

-- On a valid pool with the arena `a` at one place, on `arenas` or on `filled`, an active buffer of `a` that is not passive
-- comes back: `__iobuf_put` makes it the first passive one of `a`, whose counts are the lengths of its lists. If no
-- buffer of `a` is active any more, `a` goes to the end of `purge`; else, if it had no passive buffer, to the end of
-- `arenas`; else it stays in its place. The pool is valid, and nothing else of it changes.
pub iobuf_put_to-IsValid :
    (side : Bool) (pool : Pool) (xs ys : List Arena) (a : Arena) (i : ℕ) (before after : List ℕ)
    → IsValid (holding side pool (xs ++ a ∷ ys))
    → Apart a.id xs
    → Apart a.id (beside side pool)
    → Apart a.id pool.purge
    → a.active ≡ before ++ i ∷ after
    → All (λ j. j ≢ i) before
    → All (λ j. j ≢ i) a.passive
    → (pool' : Pool) × (pool'
        ≡ after_put side pool xs ys (returned i (before ++ after) a) (before ++ after) a.passive)
      × (iobuf_put_to (holding side pool (xs ++ a ∷ ys)) (record { arena = a.id; place = i })
          ≡ ok pool')
      × IsValid pool'
iobuf_put_to-IsValid side pool xs ys a i before after valid first once unpurged active fresh
      absent =
    let p = holding side pool (xs ++ a ∷ ys) in
    let counted =
      arena_of-Counted p a.id a valid (arena_of-holding pool xs ys a first unpurged side once) in
    let (back, counted') =
      give_back-returned (iobuf_cnt p) i a before after counted valid.small active fresh absent in
    let (run, valid') =
      put_to-after side pool xs ys a i (before ++ after) valid back counted' first once unpurged
        (before ++ after) a.passive refl counted.passives in
    (
      after_put side pool xs ys (returned i (before ++ after) a) (before ++ after) a.passive,
      refl,
      run,
      valid',
    )
