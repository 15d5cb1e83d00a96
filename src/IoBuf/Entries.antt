-- ===== src/IoBuf/Entries.antt =====
-- Where `iobref_add` puts a buffer.
use lz_lib.Base.Int.{pos, negsuc}
use lz_lib.Base.{
  sym, ◌≡◌, refl, ap, ◌∙◌, Option, none, some, List, [], ◌∷◌, ◌++◌, map, inc32, ok, ◌>>=◌,
}
use lz_lib.IoBuf.{Arena, Pool, Buffer, put_ref}
use lz_lib.IoBuf.Transfer.{arena_of, iobuf_ref}
use lz_lib.IoBuf.Iobref.{Iobref, iobref_add_entry, iobref_add}

-- The pool with one reference more to a buffer.
abbrev pub referenced : Pool → Buffer → Pool
referenced pool b = record pool { refs = put_ref b (inc32 (pool.refs b.arena b.place)) pool.refs }

add_entry-free :
    (pool : Pool) (b : Buffer) (a : Arena) (held : List Buffer) (rest : List (Option Buffer))
    → arena_of pool b.arena ≡ some a
    → iobref_add_entry pool (map some held ++ none ∷ rest) b
      ≡ ok (pos 0, referenced pool b, map some held ++ some b ∷ rest)
unfolding iobref_add_entry iobuf_ref
add_entry-free pool b a [] rest at = rw (iobref_add_entry, iobuf_ref, at) refl
add_entry-free pool b a (c ∷ held) rest at =
    ap (λ r. r >>= λ r. ok (r.0, r.1, some c ∷ r.2)) (add_entry-free pool b a held rest at)

add_entry-full :
    (pool : Pool) (b : Buffer) (held : List Buffer)
    → iobref_add_entry pool (map some held) b ≡ ok (negsuc 11, pool, map some held)
unfolding iobref_add_entry
add_entry-full pool b [] = refl
add_entry-full pool b (c ∷ held) =
    ap (λ r. r >>= λ r. ok (r.0, r.1, some c ∷ r.2)) (add_entry-full pool b held)

-- With a buffer whose arena is there, `iobref_add` returns 0, puts the buffer into the first empty entry,
-- and raises its reference count by one; the other entries and counts stay.
iobref_add-free :
    (pool : Pool) (r : Iobref) (b : Buffer) (a : Arena) (held : List Buffer)
    (rest : List (Option Buffer))
    → arena_of pool b.arena ≡ some a
    → r.iobrefs ≡ map some held ++ none ∷ rest
    → iobref_add pool (some r) (some b)
      ≡ ok (pos 0, referenced pool b, some (record r { iobrefs = map some held ++ some b ∷ rest }))
unfolding iobref_add
iobref_add-free pool r b a held rest at entries =
    ap (λ xs. iobref_add_entry pool xs b >>= λ o. ok (o.0, o.1, some (record r { iobrefs = o.2 })))
      entries
    ∙ ap (λ m. m >>= λ o. ok (o.0, o.1, some (record r { iobrefs = o.2 })))
        (add_entry-free pool b a held rest at)

-- With no empty entry, `iobref_add` returns -ENOMEM and changes neither the entries nor a reference count.
iobref_add-full :
    (pool : Pool) (r : Iobref) (b : Buffer) (held : List Buffer)
    → r.iobrefs ≡ map some held
    → iobref_add pool (some r) (some b) ≡ ok (negsuc 11, pool, some r)
unfolding iobref_add
iobref_add-full pool r b held entries =
    ap (λ xs. iobref_add_entry pool xs b >>= λ o. ok (o.0, o.1, some (record r { iobrefs = o.2 })))
      entries
    ∙ ap (λ m. m >>= λ o. ok (o.0, o.1, some (record r { iobrefs = o.2 })))
        (add_entry-full pool b held)
    ∙ ap (λ xs. ok (negsuc 11, pool, some (record r { iobrefs = xs }))) (sym entries)
