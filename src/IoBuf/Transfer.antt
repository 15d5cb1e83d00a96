-- ===== src/IoBuf/Transfer.antt =====
-- How a buffer goes out of the pool and comes back: src/iobuf.c from `__iobuf_select_arena` to
-- `iobuf_ref`.
use lz_lib.Base.{
  ℕ, Option, none, some, List, [], ◌∷◌, ◌++◌, ◌==◌, if◌then◌else◌, inc32, dec32, Run, ok, fault,
  bad_access, ◌>>=◌,
}
use lz_lib.IoBuf.{Arena, Pool, Buffer, Grant, put_ref, iobuf_pool_add_arena, iobuf_pool_prune}

-- The head-most arena with a free buffer.
unfoldable pub first_free : List Arena → Option Arena
first_free [] = none
first_free (a ∷ rest) = if a.passive_cnt == 0 then first_free rest else some a

-- `__iobuf_select_arena`
unfoldable pub iobuf_select_arena : Grant → Pool → Run (Option Arena × Pool)
unfolding first_free iobuf_pool_add_arena
iobuf_select_arena grant pool = elim (first_free pool.arenas) [
  | some a ↦ ok (some a, pool)
  | none ↦ iobuf_pool_add_arena grant pool
]

-- The arena at an address, off the list, and changed where it stands.
unfoldable pub find_arena : ℕ → List Arena → Option Arena
find_arena id [] = none
find_arena id (a ∷ rest) = if a.id == id then some a else find_arena id rest

unfoldable pub drop_arena : ℕ → List Arena → List Arena
drop_arena id [] = []
drop_arena id (a ∷ rest) = if a.id == id then rest else a ∷ drop_arena id rest

unfoldable pub write_arena : Arena → List Arena → List Arena
write_arena v [] = []
write_arena v (a ∷ rest) = if a.id == v.id then v ∷ rest else a ∷ write_arena v rest

-- The arena that a buffer points to, on whichever list it stands. On none it has been freed.
unfoldable pub arena_of : Pool → ℕ → Option Arena
unfolding find_arena
arena_of pool id = find_arena id (pool.arenas ++ pool.filled ++ pool.purge)

-- `list_del (&iobuf_arena->list)`
unfoldable pub list_del_arena : ℕ → Pool → Pool
unfolding drop_arena
list_del_arena id pool = record pool {
  arenas = drop_arena id pool.arenas;
  filled = drop_arena id pool.filled;
  purge = drop_arena id pool.purge;
}

unfoldable pub store_arena : Arena → Pool → Pool
unfolding write_arena
store_arena v pool = record pool {
  arenas = write_arena v pool.arenas;
  filled = write_arena v pool.filled;
  purge = write_arena v pool.purge;
}

-- `__iobuf_get`: the first passive buffer becomes the first active one. An arena that has none left
-- goes to the front of the filled list. (With no passive buffer the code would take the sentinel.)
unfoldable pub iobuf_get_from : Pool → Arena → Run (Buffer × Pool)
unfolding list_del_arena store_arena
iobuf_get_from pool a = elim a.passive [
  | [] ↦ fault bad_access
  | i ∷ rest ↦
      let a' = record a {
        passive = rest;
        passive_cnt = dec32 a.passive_cnt;
        active = i ∷ a.active;
        active_cnt = inc32 a.active_cnt;
      } in
      let b : Buffer = record { arena = a.id; place = i } in
      let off = list_del_arena a.id pool in
      if dec32 a.passive_cnt == 0
      then ok (b, record off { filled = a' ∷ off.filled })
      else ok (b, store_arena a' pool)
]

-- `iobuf_get`: the buffer has one reference more than it had. Null, when no arena can be had.
unfoldable pub iobuf_get : Grant → Pool → Run (Option Buffer × Pool)
unfolding iobuf_select_arena iobuf_get_from put_ref
iobuf_get grant pool = iobuf_select_arena grant pool >>= λ s. elim s.0 [
  | none ↦ ok (none, s.1)
  | some a ↦ iobuf_get_from s.1 a >>= λ r.
      ok (
        some r.0,
        record r.1 { refs = put_ref r.0 (inc32 (r.1.refs r.0.arena r.0.place)) r.1.refs },
      )
]

-- `list_del_init (&iobuf->list)`, of a buffer on either list of its arena.
unfoldable pub drop_place : ℕ → List ℕ → List ℕ
drop_place i [] = []
drop_place i (j ∷ rest) = if j == i then rest else j ∷ drop_place i rest

-- The arena behind `__iobuf_put`.
unfoldable pub give_back : ℕ → Arena → Arena
unfolding drop_place
give_back i a = record a {
  active = drop_place i a.active;
  active_cnt = dec32 a.active_cnt;
  passive = i ∷ drop_place i a.passive;
  passive_cnt = inc32 a.passive_cnt;
}

-- `__iobuf_put`: an arena that had no passive buffer goes to the tail of `arenas`, and then one that has
-- no active buffer left to the tail of `purge`.
unfoldable pub iobuf_put_to : Pool → Buffer → Run Pool
unfolding arena_of list_del_arena store_arena give_back
iobuf_put_to pool b = elim (arena_of pool b.arena) [
  | none ↦ fault bad_access
  | some a ↦
      let a' = give_back b.place a in
      let off = list_del_arena a.id pool in
      if a'.active_cnt == 0
      then ok (record off { purge = off.purge ++ a' ∷ [] })
      else (if a.passive_cnt == 0
          then ok (record off { arenas = off.arenas ++ a' ∷ [] })
          else ok (store_arena a' pool))
]

-- `iobuf_put`
unfoldable pub iobuf_put : Pool → Option Buffer → Run Pool
unfolding iobuf_put_to iobuf_pool_prune
iobuf_put pool none = ok pool
iobuf_put pool (some b) = iobuf_put_to pool b >>= λ p. iobuf_pool_prune p

-- `iobuf_unref`. The memory of a buffer goes with its arena.
unfoldable pub iobuf_unref : Pool → Option Buffer → Run Pool
unfolding iobuf_put put_ref arena_of
iobuf_unref pool none = ok pool
iobuf_unref pool (some b) = elim (arena_of pool b.arena) [
  | none ↦ fault bad_access
  | some a ↦
      let ref = dec32 (pool.refs b.arena b.place) in
      let p = record pool { refs = put_ref b ref pool.refs } in
      if ref == 0 then iobuf_put p (some b) else ok p
]

-- `iobuf_ref`
unfoldable pub iobuf_ref : Pool → Option Buffer → Run Pool
unfolding put_ref arena_of
iobuf_ref pool none = ok pool
iobuf_ref pool (some b) = elim (arena_of pool b.arena) [
  | none ↦ fault bad_access
  | some a ↦ ok (record pool { refs = put_ref b (inc32 (pool.refs b.arena b.place)) pool.refs })
]

-- `iobuf_size`
unfoldable pub iobuf_size : Pool → Option Buffer → Run ℕ
unfolding arena_of
iobuf_size pool none = ok 0
iobuf_size pool (some b) = elim (arena_of pool b.arena) [
  | none ↦ fault bad_access
  | some a ↦ ok pool.page_size
]
