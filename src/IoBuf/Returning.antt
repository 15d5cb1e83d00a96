-- ===== src/IoBuf/Returning.antt =====
-- What a buffer that comes back makes of its arena and of the pool: `__iobuf_put` of src/iobuf.c.
use lz_lib.Base.{
  true, Bool, false, subst, ==_refl, ℕ, suc, ◌+◌, ◌^◌, ◌<◌, ◌≡◌, ◌≢◌, refl, ap, ◌∙◌, inl, inr, some,
  List, [], ◌∷◌, ◌++◌, arith, ◌==◌, Bool-cases, All, All-append, length, length-append, inc32,
  dec32, ok,
}
use lz_lib.IoBuf.{Arena, Pool, iobuf_cnt}
use lz_lib.IoBuf.Transfer.{
  arena_of, list_del_arena, store_arena, drop_place, give_back, iobuf_put_to,
}
use lz_lib.IoBuf.Places.{
  Apart, holding, beside, list_del_arena-holding, store_arena-holding, arena_of-holding,
}
use lz_lib.IoBuf.Counted.{
  Counted, IsValid, All-find, to_purge-IsValid, to_arenas-IsValid, store_arena-IsValid,
}

-- The arena with an active buffer come back; the counts are the lengths of its lists.
abbrev pub returned : ℕ → List ℕ → Arena → Arena
returned i others a = record a {
  active = others;
  active_cnt = length others;
  passive = i ∷ a.passive;
  passive_cnt = suc (length a.passive);
}

-- The pool once the arena `v`, which stood between the two lists on `arenas` or on `filled`, has its buffer back: `others`
-- are those still active, and `idle` those that were passive before.
abbrev pub after_put : Bool → Pool → List Arena → List Arena → Arena → List ℕ → List ℕ → Pool
after_put side pool xs ys v [] idle =
    let off = holding side pool (xs ++ ys) in record off { purge = off.purge ++ v ∷ [] }
after_put side pool xs ys v (j ∷ others) [] =
    let off = holding side pool (xs ++ ys) in record off { arenas = off.arenas ++ v ∷ [] }
after_put side pool xs ys v (j ∷ others) (i ∷ idle) = holding side pool (xs ++ v ∷ ys)

drop_place-absent : (i : ℕ) (xs : List ℕ) → All (λ j. j ≢ i) xs → drop_place i xs ≡ xs
unfolding drop_place
drop_place-absent i [] h = refl
drop_place-absent i (j ∷ xs) h = elim (Bool-cases (j == i)) [
  | inl t ↦ absurd (h.0 (ground arith))
  | inr f ↦ rw f (ap (◌∷◌ j) (drop_place-absent i xs h.1))
]

drop_place-middle :
    (i : ℕ) (before after : List ℕ)
    → All (λ j. j ≢ i) before
    → drop_place i (before ++ i ∷ after) ≡ before ++ after
unfolding drop_place
drop_place-middle i [] after h = rw (==_refl i) refl
drop_place-middle i (j ∷ before) after h = elim (Bool-cases (j == i)) [
  | inl t ↦ absurd (h.0 (ground arith))
  | inr f ↦ rw f (ap (◌∷◌ j) (drop_place-middle i before after h.1))
]

-- The arena that a buffer goes back to.
pub give_back-returned :
    (n i : ℕ) (a : Arena) (before after : List ℕ)
    → Counted n a
    → n < 2 ^ 31
    → a.active ≡ before ++ i ∷ after
    → All (λ j. j ≢ i) before
    → All (λ j. j ≢ i) a.passive
    → (give_back i a ≡ returned i (before ++ after) a) × Counted n (returned i (before ++ after) a)
unfolding give_back
give_back-returned n i a before after counted small active first absent =
    let was : length a.active ≡ length before + suc (length after) =
      ap length active ∙ length-append before (i ∷ after) in
    let now : length (before ++ after) ≡ length before + length after =
      length-append before after in
    let less : dec32 a.active_cnt ≡ length (before ++ after) =
      omega (arith, counted.actives, counted.total, was, now, small) in
    let more : inc32 a.passive_cnt ≡ suc (length a.passive) =
      omega (arith, counted.passives, counted.total, was, small) in
    (
      rw
          (
            less,
            more,
            active,
            drop_place-middle i before after first,
            drop_place-absent i a.passive absent,
          )
          refl,
      record { actives = refl; passives = refl; total = omega (arith, counted.total, was, now) },
    )

pub arena_of-Counted :
    (pool : Pool) (id : ℕ) (a : Arena)
    → IsValid pool
    → arena_of pool id ≡ some a
    → Counted (iobuf_cnt pool) a
unfolding arena_of
arena_of-Counted pool id a valid at =
    let P = Counted (iobuf_cnt pool) in
    All-find P id (pool.arenas ++ pool.filled ++ pool.purge) a
      (All-append P (pool.arenas ++ pool.filled) pool.purge
        (All-append P pool.arenas pool.filled valid.in_arenas valid.in_filled) valid.in_purge)
      at

-- The three moves of `__iobuf_put`, of an arena on either list.
module _ (side : Bool) (pool : Pool) (xs ys : List Arena) (a : Arena) (i : ℕ) (others : List ℕ)
    (valid : IsValid (holding side pool (xs ++ a ∷ ys)))
    (back : give_back i a ≡ returned i others a)
    (counted : Counted (iobuf_cnt (holding side pool (xs ++ a ∷ ys))) (returned i others a))
    (first : Apart a.id xs) (once : Apart a.id (beside side pool))
    (unpurged : Apart a.id pool.purge) where
  pub put_to-after :
      (actives idle : List ℕ)
      → length others ≡ length actives
      → a.passive_cnt ≡ length idle
      → (iobuf_put_to (holding side pool (xs ++ a ∷ ys)) (record { arena = a.id; place = i })
          ≡ ok (after_put side pool xs ys (returned i others a) actives idle))
        × IsValid (after_put side pool xs ys (returned i others a) actives idle)
  unfolding iobuf_put_to
  put_to-after [] idle n k =
      let p = holding side pool (xs ++ a ∷ ys) in
      let v = returned i others a in
      let at = arena_of-holding pool xs ys a first unpurged side once in
      let off = list_del_arena-holding pool xs ys a first unpurged side once in
      let o = list_del_arena a.id p in
      let zero : ((give_back i a).active_cnt == 0) ≡ true =
        ap (λ x. x.active_cnt == 0) back ∙ ground (arith, n) in
      let gone : iobuf_put_to p (record { arena = a.id; place = i })
          ≡ ok (record o { purge = o.purge ++ v ∷ [] }) =
        simp (iobuf_put_to, at, zero, back) in
      (
        gone ∙ ap (λ (o : Pool). ok (record o { purge = o.purge ++ v ∷ [] })) off,
        subst (λ o. IsValid (record o { purge = o.purge ++ v ∷ [] })) off
            (to_purge-IsValid p a.id v valid counted),
      )
  put_to-after (j ∷ actives) [] n k =
      let p = holding side pool (xs ++ a ∷ ys) in
      let v = returned i others a in
      let at = arena_of-holding pool xs ys a first unpurged side once in
      let off = list_del_arena-holding pool xs ys a first unpurged side once in
      let used : ((give_back i a).active_cnt == 0) ≡ false =
        ap (λ x. x.active_cnt == 0) back ∙ ground (arith, n) in
      let o = list_del_arena a.id p in
      let full : (a.passive_cnt == 0) ≡ true = ground (arith, k) in
      let gone : iobuf_put_to p (record { arena = a.id; place = i })
          ≡ ok (record o { arenas = o.arenas ++ give_back i a ∷ [] }) =
        simp (iobuf_put_to, at, used, full) in
      (
        gone
            ∙ ap (λ x. ok (record o { arenas = o.arenas ++ x ∷ [] })) back
            ∙ ap (λ (o : Pool). ok (record o { arenas = o.arenas ++ v ∷ [] })) off,
        subst (λ o. IsValid (record o { arenas = o.arenas ++ v ∷ [] })) off
            (to_arenas-IsValid p a.id v valid counted),
      )
  put_to-after (j ∷ actives) (q ∷ idle) n k =
      let p = holding side pool (xs ++ a ∷ ys) in
      let v = returned i others a in
      let at = arena_of-holding pool xs ys a first unpurged side once in
      let stored =
        store_arena-holding pool xs ys a first unpurged side v refl first unpurged once in
      let used : ((give_back i a).active_cnt == 0) ≡ false =
        ap (λ x. x.active_cnt == 0) back ∙ ground (arith, n) in
      let more : (a.passive_cnt == 0) ≡ false = ground (arith, k) in
      let gone : iobuf_put_to p (record { arena = a.id; place = i }) ≡ ok (store_arena v p) =
        simp (iobuf_put_to, at, used, back, more) in
      (gone ∙ ap ok stored, subst IsValid stored (store_arena-IsValid p a.id v valid counted))
