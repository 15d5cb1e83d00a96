-- ===== src/IoBuf/Iobref.antt =====
-- `struct iobref` of src/iobuf.h and src/iobuf.c: a counted set of at most eight buffers.
use lz_lib.Base.Int.{ℤ, pos, negsuc, ltb_ℤ}
use lz_lib.Base.{
  ℕ, ◌+◌, Bool, true, false, Option, none, some, List, [], ◌∷◌, replicate, ◌==◌, if◌then◌else◌,
  inc32, dec32, u64, Run, ok, ◌>>=◌,
}
use lz_lib.IoBuf.{Pool, Buffer}
use lz_lib.IoBuf.Transfer.{iobuf_ref, iobuf_unref, iobuf_size}

-- `iobrefs` has eight entries; `ref` is the bit pattern of the count.
pub record Iobref : Type 0 where
  pub ref : ℕ
  pub iobrefs : List (Option Buffer)

-- `iobref_new`
unfoldable pub iobref_new : Bool → Option Iobref
iobref_new false = none
iobref_new true = some (record { ref = 1; iobrefs = replicate 8 none })

-- `iobref_ref`
unfoldable pub iobref_ref : Option Iobref → Option Iobref
iobref_ref none = none
iobref_ref (some r) = some (record r { ref = inc32 r.ref })

-- `iobref_destroy`: each buffer loses a reference.
unfoldable pub unref_all : Pool → List (Option Buffer) → Run Pool
unfolding iobuf_unref
unref_all pool [] = ok pool
unref_all pool (b ∷ rest) = iobuf_unref pool b >>= λ p. unref_all p rest

unfoldable pub iobref_destroy : Pool → Option Iobref → Run Pool
unfolding unref_all
iobref_destroy pool none = ok pool
iobref_destroy pool (some r) = unref_all pool r.iobrefs

-- `iobref_unref`; none is one that is gone.
unfoldable pub iobref_unref : Pool → Option Iobref → Run (Pool × Option Iobref)
unfolding iobref_destroy
iobref_unref pool none = ok (pool, none)
iobref_unref pool (some r) =
    let ref = dec32 r.ref in
    if ref == 0
    then (iobref_destroy pool (some r) >>= λ p. ok (p, none))
    else ok (pool, some (record r { ref = ref }))

-- `__iobref_add`: the first empty entry takes the buffer, with a reference of its own. With none empty
-- it is -ENOMEM.
unfoldable pub iobref_add_entry :
    Pool → List (Option Buffer) → Buffer → Run (ℤ × Pool × List (Option Buffer))
unfolding iobuf_ref
iobref_add_entry pool [] b = ok (negsuc 11, pool, [])
iobref_add_entry pool (none ∷ rest) b =
    iobuf_ref pool (some b) >>= λ p. ok (pos 0, p, some b ∷ rest)
iobref_add_entry pool (some c ∷ rest) b =
    iobref_add_entry pool rest b >>= λ r. ok (r.0, r.1, some c ∷ r.2)

-- `iobref_add`: 0, -ENOMEM or -EINVAL.
unfoldable pub iobref_add : Pool → Option Iobref → Option Buffer → Run (ℤ × Pool × Option Iobref)
unfolding iobref_add_entry
iobref_add pool none b = ok (negsuc 21, pool, none)
iobref_add pool (some r) none = ok (negsuc 21, pool, some r)
iobref_add pool (some r) (some b) = iobref_add_entry pool r.iobrefs b >>= λ out.
    ok (out.0, out.1, some (record r { iobrefs = out.2 }))

-- `iobref_merge`, of an `iobref` that is not the target: it stops at the first empty entry, and at the
-- first that cannot be added. `ret` is what the addition before returned.
unfoldable pub merge_entries :
    Pool → Option Iobref → List (Option Buffer) → ℤ → Run (ℤ × Pool × Option Iobref)
unfolding iobref_add
merge_entries pool to [] ret = ok (ret, pool, to)
merge_entries pool to (none ∷ rest) ret = ok (ret, pool, to)
merge_entries pool to (some b ∷ rest) ret = iobref_add pool to (some b) >>= λ r.
    elim (ltb_ℤ r.0 (pos 0)) [ true ↦ ok r | false ↦ merge_entries r.1 r.2 rest r.0 ]

unfoldable pub iobref_merge : Pool → Option Iobref → Iobref → Run (ℤ × Pool × Option Iobref)
unfolding merge_entries
iobref_merge pool to source = merge_entries pool to source.iobrefs (pos 0)

-- `iobref_size`
unfoldable pub sizes : Pool → List (Option Buffer) → ℕ → Run ℕ
unfolding iobuf_size
sizes pool [] size = ok size
sizes pool (b ∷ rest) size = iobuf_size pool b >>= λ n. sizes pool rest (u64 (size + n))

unfoldable pub iobref_size : Pool → Option Iobref → Run ℕ
unfolding sizes
iobref_size pool none = ok 0
iobref_size pool (some r) = sizes pool r.iobrefs 0
