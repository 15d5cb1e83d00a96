-- ===== src/IoBuf/Lending.antt =====
-- What a buffer that goes out makes of its arena and of the pool: `__iobuf_get` of src/iobuf.c.
use lz_lib.Base.{
  false, subst, ℕ, suc, ◌^◌, ◌<◌, ◌≡◌, ◌≢◌, refl, ap, ◌∙◌, List, [], ◌∷◌, ◌++◌, arith, ◌==◌, length,
  inc32, dec32, ok,
}
use lz_lib.IoBuf.{Arena, Pool, Buffer, iobuf_cnt}
use lz_lib.IoBuf.Transfer.{list_del_arena, store_arena, iobuf_get_from}
use lz_lib.IoBuf.Places.{Apart, holding, list_del_arena-holding, store_arena-holding}
use lz_lib.IoBuf.Counted.{Counted, IsValid, to_filled-IsValid, store_arena-IsValid}

-- The arena with its first passive buffer gone out; the counts are the lengths.
abbrev pub lent : ℕ → List ℕ → Arena → Arena
lent i rest a = record a {
  passive = rest;
  passive_cnt = length rest;
  active = i ∷ a.active;
  active_cnt = suc (length a.active);
}

-- The pool once the arena `v`, which stood between the two lists, has lent a buffer and has `rest` left to lend.
abbrev pub after_get : Pool → List Arena → List Arena → Arena → List ℕ → Pool
after_get pool before after v [] = record pool {
  arenas = before ++ after;
  filled = v ∷ pool.filled;
}
after_get pool before after v (j ∷ rest) = record pool { arenas = before ++ v ∷ after }

lent-Counted :
    (n i : ℕ) (rest : List ℕ) (a : Arena)
    → Counted n a
    → a.passive ≡ i ∷ rest
    → Counted n (lent i rest a)
lent-Counted n i rest a counted e = record {
  actives = refl;
  passives = refl;
  total = omega (arith, counted.total, ap length e);
}

-- What the code makes of the counts.
lent-counts :
    (n i : ℕ) (rest : List ℕ) (a : Arena)
    → Counted n a
    → n < 2 ^ 31
    → a.passive ≡ i ∷ rest
    → (dec32 a.passive_cnt ≡ length rest) × (inc32 a.active_cnt ≡ suc (length a.active))
lent-counts n i rest a counted small e =
    let more : length a.passive ≡ suc (length rest) = ap length e in
    (
      omega (arith, counted.passives, counted.total, more, small),
      omega (arith, counted.actives, counted.total, more, small),
    )

-- The first arena with a free buffer, where it stands.
module _ (pool : Pool) (a : Arena) (before after : List Arena)
    (valid : IsValid (holding false pool (before ++ a ∷ after)))
    (counted : Counted (iobuf_cnt (holding false pool (before ++ a ∷ after))) a)
    (first : Apart a.id before) (unfilled : Apart a.id pool.filled)
    (unpurged : Apart a.id pool.purge) where
  pub get_from-after :
      (i : ℕ) (rest : List ℕ)
      → a.passive ≡ i ∷ rest
      → (iobuf_get_from (holding false pool (before ++ a ∷ after)) a
          ≡ ok (
            record { arena = a.id; place = i },
            after_get pool before after (lent i rest a) rest,
          ))
        × IsValid (after_get pool before after (lent i rest a) rest)
  unfolding iobuf_get_from
  get_from-after i [] e =
      let p = holding false pool (before ++ a ∷ after) in
      let (less, more) = lent-counts (iobuf_cnt p) i [] a counted valid.small e in
      let off = list_del_arena-holding pool before after a first unpurged false unfilled in
      let b : Buffer = record { arena = a.id; place = i } in
      let o = list_del_arena a.id p in
      let gone : iobuf_get_from p a ≡ ok (b, record o { filled = lent i [] a ∷ o.filled }) =
        simp (iobuf_get_from, e, less, more) in
      (
        gone ∙ ap (λ o. ok (b, record o { filled = lent i [] a ∷ o.filled })) off,
        subst (λ o. IsValid (record o { filled = lent i [] a ∷ o.filled })) off
            (to_filled-IsValid p a.id (lent i [] a) valid
              (lent-Counted (iobuf_cnt p) i [] a counted e)),
      )
  get_from-after i (j ∷ rest) e =
      let p = holding false pool (before ++ a ∷ after) in
      let v = lent i (j ∷ rest) a in
      let (less, more) = lent-counts (iobuf_cnt p) i (j ∷ rest) a counted valid.small e in
      let some_left : (suc (length rest) == 0) ≡ false = ground arith in
      let stored =
        store_arena-holding pool before after a first unpurged false v refl first unpurged
          unfilled in
      let b : Buffer = record { arena = a.id; place = i } in
      let gone : iobuf_get_from p a ≡ ok (b, store_arena v p) =
        simp (iobuf_get_from, e, less, more, some_left) in
      (
        gone ∙ ap (λ o. ok (b, o)) stored,
        subst IsValid stored (
            store_arena-IsValid p a.id v valid
              (lent-Counted (iobuf_cnt p) i (j ∷ rest) a counted e)),
      )

pub some_passive :
    (a : Arena) (xs : List ℕ)
    → a.passive ≡ xs
    → length xs ≢ 0
    → (i : ℕ) × (rest : List ℕ) × (a.passive ≡ i ∷ rest)
some_passive a [] e left = absurd (left refl)
some_passive a (i ∷ rest) e left = (i, rest, e)
