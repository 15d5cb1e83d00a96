-- ===== src/IoBuf/Counted.antt =====
-- Pools whose arenas have the counts that their lists say, and what keeps them so.
use lz_lib.Base.{
  ℕ, ◌+◌, ◌^◌, ◌<◌, ◌≡◌, ◌≢◌, inl, inr, some, List, [], ◌∷◌, ◌++◌, arith, ◌==◌, Bool-cases, All,
  All-append, length, subst,
}
use lz_lib.IoBuf.{Arena, Pool, iobuf_cnt}
use lz_lib.IoBuf.Transfer.{
  first_free, find_arena, drop_arena, write_arena, list_del_arena, store_arena,
}

-- An arena of `n` buffers, each on one of its lists.
pub record Counted (n : ℕ) (a : Arena) : Type 0 where
  pub actives : a.active_cnt ≡ length a.active
  pub passives : a.passive_cnt ≡ length a.passive
  pub total : length a.active + length a.passive ≡ n

-- A pool between calls. An arena holds at least one buffer.
pub record IsValid (pool : Pool) : Type 0 where
  pub page : 0 < pool.page_size
  pub room : 0 < iobuf_cnt pool
  pub small : iobuf_cnt pool < 2 ^ 31
  pub in_arenas : All (Counted (iobuf_cnt pool)) pool.arenas
  pub in_filled : All (Counted (iobuf_cnt pool)) pool.filled
  pub in_purge : All (Counted (iobuf_cnt pool)) pool.purge

module _ (P : Arena → Type 0) where
  All-drop : (id : ℕ) (xs : List Arena) → All P xs → All P (drop_arena id xs)
  unfolding drop_arena
  All-drop id [] h = tt
  All-drop id (a ∷ xs) h = elim (Bool-cases (a.id == id)) [
    | inl t ↦ rw t h.1
    | inr f ↦ rw f (h.0, All-drop id xs h.1)
  ]

  All-write : (v : Arena) (xs : List Arena) → P v → All P xs → All P (write_arena v xs)
  unfolding write_arena
  All-write v [] p h = tt
  All-write v (a ∷ xs) p h = elim (Bool-cases (a.id == v.id)) [
    | inl t ↦ rw t (p, h.1)
    | inr f ↦ rw f (h.0, All-write v xs p h.1)
  ]

  pub All-find : (id : ℕ) (xs : List Arena) (a : Arena) → All P xs → find_arena id xs ≡ some a → P a
  unfolding find_arena
  All-find id [] a h e = cc
  All-find id (x ∷ xs) a h e = elim (Bool-cases (x.id == id)) [
    | inl t ↦ let same : x ≡ a = cc in subst P same h.0
    | inr f ↦ All-find id xs a h.1 (ground arith)
  ]

  pub All-first_free :
      (xs : List Arena) (a : Arena) → All P xs → first_free xs ≡ some a → P a × (a.passive_cnt ≢ 0)
  unfolding first_free
  All-first_free [] a h e = cc
  All-first_free (x ∷ xs) a h e = elim (Bool-cases (x.passive_cnt == 0)) [
    | inl t ↦ All-first_free xs a h.1 (ground arith)
    | inr f ↦
        let same : x ≡ a = cc in
        subst (λ a. P a × (a.passive_cnt ≢ 0)) same (h.0, λ e. ground arith)
  ]

-- A counted arena put anywhere in a valid pool.
module _ (pool : Pool) (id : ℕ) (v : Arena) (valid : IsValid pool)
    (counted : Counted (iobuf_cnt pool) v) where
  pub to_purge-IsValid :
      let off = list_del_arena id pool in IsValid (record off { purge = off.purge ++ v ∷ [] })
  unfolding list_del_arena iobuf_cnt
  to_purge-IsValid = record {
    page = valid.page;
    room = valid.room;
    small = valid.small;
    in_arenas = All-drop (Counted (iobuf_cnt pool)) id pool.arenas valid.in_arenas;
    in_filled = All-drop (Counted (iobuf_cnt pool)) id pool.filled valid.in_filled;
    in_purge =
        All-append (Counted (iobuf_cnt pool)) (drop_arena id pool.purge) (v ∷ [])
          (All-drop (Counted (iobuf_cnt pool)) id pool.purge valid.in_purge) (counted, tt);
  }

  pub to_arenas-IsValid :
      let off = list_del_arena id pool in IsValid (record off { arenas = off.arenas ++ v ∷ [] })
  unfolding list_del_arena iobuf_cnt
  to_arenas-IsValid = record {
    page = valid.page;
    room = valid.room;
    small = valid.small;
    in_arenas =
        All-append (Counted (iobuf_cnt pool)) (drop_arena id pool.arenas) (v ∷ [])
          (All-drop (Counted (iobuf_cnt pool)) id pool.arenas valid.in_arenas) (counted, tt);
    in_filled = All-drop (Counted (iobuf_cnt pool)) id pool.filled valid.in_filled;
    in_purge = All-drop (Counted (iobuf_cnt pool)) id pool.purge valid.in_purge;
  }

  pub to_filled-IsValid :
      let off = list_del_arena id pool in IsValid (record off { filled = v ∷ off.filled })
  unfolding list_del_arena iobuf_cnt
  to_filled-IsValid = record {
    page = valid.page;
    room = valid.room;
    small = valid.small;
    in_arenas = All-drop (Counted (iobuf_cnt pool)) id pool.arenas valid.in_arenas;
    in_filled = (counted, All-drop (Counted (iobuf_cnt pool)) id pool.filled valid.in_filled);
    in_purge = All-drop (Counted (iobuf_cnt pool)) id pool.purge valid.in_purge;
  }

  pub store_arena-IsValid : IsValid (store_arena v pool)
  unfolding store_arena iobuf_cnt
  store_arena-IsValid = record {
    page = valid.page;
    room = valid.room;
    small = valid.small;
    in_arenas = All-write (Counted (iobuf_cnt pool)) v pool.arenas counted valid.in_arenas;
    in_filled = All-write (Counted (iobuf_cnt pool)) v pool.filled counted valid.in_filled;
    in_purge = All-write (Counted (iobuf_cnt pool)) v pool.purge counted valid.in_purge;
  }
