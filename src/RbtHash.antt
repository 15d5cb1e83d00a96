-- ===== src/RbtHash.antt =====
-- The hash table of src/rbthash.h and src/rbthash.c: buckets that are red-black trees.
--
-- `Ops` holds what the table calls: the trees of src/rb.c, the allocator and the pool that the entries come from. The
-- comparison that `rb_create` is given is passed to each operation of a tree. A table that is not null is meant; the
-- locks of the buckets are held over each operation on one.
pub mod Order
pub mod Buckets
pub mod Laws
mod Tests
use lz_lib.Base.{
  ℕ, zero, suc, ◌<◌, ◌%◌, Bool, true, false, Option, none, some, List, [], ◌∷◌, length, get_elem?,
  set, ltb, ◌==◌, not, ◌&&◌, ◌||◌, if◌then◌else◌, Run, ok, fault, bad_access, ◌>>=◌,
}
use lz_lib.Base.Int.{ℤ, pos, negsuc}

-- `rbthash_entry_t`, with `data` called `value`; it has an address, as has its copy of the key.
pub record Entry : Type 0 where
  pub id : ℕ
  pub value : ℕ
  pub key_at : ℕ
  pub key : List ℕ
  pub keyhash : ℕ

pub record Ops (World Tree : Type 0) : Type 0 where
  pub rb_create : World → Option (Tree × World)
  pub rb_probe : (Entry → Entry → ℤ) → World → Tree → Entry → Option (Entry × Tree × World)
  pub rb_find : (Entry → Entry → ℤ) → Tree → Entry → Option Entry
  pub rb_delete : (Entry → Entry → ℤ) → World → Tree → Entry → Option Entry × Tree × World
  pub rb_items : Tree → List Entry
  pub rb_free : World → Tree → World
  pub calloc : World → ℕ → Option (ℕ × World)
  pub free : World → ℕ → World
  pub mem_pool_new : World → ℕ → Option (ℕ × World)
  pub mem_pool_destroy : World → ℕ → World
  pub mem_get : World → ℕ → Option (ℕ × World)
  pub mem_put : World → ℕ → ℕ → World

-- `rbthash_table_t`, with the addresses of the table and of its buckets
pub record Table (World Tree : Type 0) : Type 0 where
  pub address : ℕ
  pub buckets_at : ℕ
  pub numbuckets : ℕ
  pub buckets : List Tree
  pub entrypool : ℕ
  pub hashfunc : List ℕ → ℕ
  pub dfunc : Option (World → ℕ → World)
  pub pool_alloced : Bool

-- `memcmp`, on as many bytes as both have
unfoldable pub memcmp : List ℕ → List ℕ → ℤ
memcmp [] b = pos 0
memcmp (x ∷ a) [] = pos 0
memcmp (x ∷ a) (y ∷ b) =
    let rest = memcmp a b in if ltb x y then negsuc 0 else (if ltb y x then pos 1 else rest)

-- `rbthash_comparator`, of two entries of a table
unfoldable pub rbthash_comparator : Entry → Entry → ℤ
unfolding memcmp
rbthash_comparator e1 e2 =
    if length e1.key == length e2.key
    then memcmp e1.key e2.key
    else (if ltb (length e1.key) (length e2.key) then negsuc 0 else pos 1)

module _ {World Tree : Type 0} (ops : Ops World Tree) where
  -- `__rbthash_init_buckets`; a failure leaves the trees that are already made.
  unfoldable pub rbthash_init_buckets : ℕ → World → ℤ × List Tree × World
  rbthash_init_buckets zero w = (pos 0, [], w)
  rbthash_init_buckets (suc n) w = elim (ops.rb_create w) [
    | none ↦ (negsuc 0, [], w)
    | some (t, w') ↦ let rest = rbthash_init_buckets n w' in (rest.0, t ∷ rest.1, rest.2)
  ]

  -- The end of `rbthash_table_init`, once there is a pool.
  unfoldable pub with_pool : Table World Tree → World → Option (Table World Tree) × World
  unfolding rbthash_init_buckets
  with_pool tbl w =
      let made = rbthash_init_buckets tbl.numbuckets w in
      let w1 = if tbl.pool_alloced then ops.mem_pool_destroy made.2 tbl.entrypool else made.2 in
      elim made.0 [
        | pos n ↦ (some (record tbl { buckets = made.1 }), made.2)
        | negsuc n ↦ (none, ops.free (ops.free w1 tbl.buckets_at) tbl.address)
      ]

  -- `rbthash_table_init` behind its tests of the arguments, with the address of the table and of its buckets
  unfoldable pub with_buckets :
      ℕ
      → ℕ
      → ℕ
      → (List ℕ → ℕ)
      → Option (World → ℕ → World)
      → ℕ
      → Option ℕ
      → World
      → Option (Table World Tree) × World
  unfolding with_pool
  with_buckets a b buckets hfunc dfunc expected (some pool) w =
      with_pool
        (record {
          address = a;
          buckets_at = b;
          numbuckets = buckets;
          buckets = [];
          entrypool = pool;
          hashfunc = hfunc;
          dfunc = dfunc;
          pool_alloced = false;
        })
        w
  with_buckets a b buckets hfunc dfunc expected none w = elim (ops.mem_pool_new w expected) [
    | none ↦ (none, ops.free (ops.free w b) a)
    | some (pool, w') ↦
        with_pool
          (record {
            address = a;
            buckets_at = b;
            numbuckets = buckets;
            buckets = [];
            entrypool = pool;
            hashfunc = hfunc;
            dfunc = dfunc;
            pool_alloced = true;
          })
          w'
  ]

  abbrev given : Option ℕ → Bool
  given none = false
  given (some p) = true

  -- `rbthash_table_init`
  unfoldable pub rbthash_table_init :
      ℕ
      → Option (List ℕ → ℕ)
      → Option (World → ℕ → World)
      → ℕ
      → Option ℕ
      → World
      → Option (Table World Tree) × World
  unfolding with_buckets
  rbthash_table_init buckets none dfunc expected entrypool w = (none, w)
  rbthash_table_init buckets (some hfunc) dfunc expected entrypool w =
      let made : Option (Table World Tree) × World = elim (ops.calloc w 1) [
        | none ↦ (none, w)
        | some (a, w1) ↦ elim (ops.calloc w1 buckets) [
          | none ↦ (none, ops.free w1 a)
          | some (b, w2) ↦ with_buckets a b buckets hfunc dfunc expected entrypool w2
        ]
      ] in
      if given entrypool
      then (if expected == 0 then made else (none, w))
      else (if expected == 0 then (none, w) else made)

  -- `rbthash_init_entry`, of data and a key that are not null
  unfoldable pub rbthash_init_entry : Table World Tree → World → ℕ → List ℕ → Option Entry × World
  rbthash_init_entry tbl w value key = elim (ops.mem_get w tbl.entrypool) [
    | none ↦ (none, w)
    | some (e, w1) ↦ elim (ops.calloc w1 (length key)) [
      | none ↦ (none, ops.mem_put w1 tbl.entrypool e)
      | some (k, w2) ↦ (
        some (record { id = e; value = value; key_at = k; key = key; keyhash = tbl.hashfunc key }),
        w2,
      )
    ]
  ]

  -- `rbthash_deinit_entry`, of an entry of the table
  unfoldable pub rbthash_deinit_entry : Table World Tree → World → Entry → World
  rbthash_deinit_entry tbl w e =
      let w1 = ops.free w e.key_at in
      let w2 : World = elim tbl.dfunc [ none ↦ w1 | some f ↦ f w1 e.value ] in
      ops.mem_put w2 tbl.entrypool e.id

  -- The bucket of `rbthash_entry_bucket` and `rbthash_key_bucket`, by its index
  unfoldable pub bucket_index : Table World Tree → ℕ → ℕ
  bucket_index tbl keyhash = keyhash % tbl.numbuckets

  -- `rbthash_insert_entry`; an array that has no such bucket is read out of bounds.
  unfoldable pub rbthash_insert_entry :
      Table World Tree → World → Entry → Run (ℤ × Table World Tree × World)
  unfolding bucket_index rbthash_comparator
  rbthash_insert_entry tbl w e =
      let i = bucket_index tbl e.keyhash in
      elim (get_elem? tbl.buckets i) [
        | none ↦ fault bad_access
        | some t ↦ elim (ops.rb_probe rbthash_comparator w t e) [
          | none ↦ ok (negsuc 0, tbl, w)
          | some (x, t', w') ↦ ok (pos 0, record tbl { buckets = set tbl.buckets i t' }, w')
        ]
      ]

  -- `rbthash_insert` behind `rbthash_init_entry`
  unfoldable pub insert_made :
      Table World Tree → Option Entry × World → Run (ℤ × Table World Tree × World)
  unfolding rbthash_insert_entry rbthash_deinit_entry
  insert_made tbl (none, w) = ok (negsuc 0, tbl, w)
  insert_made tbl (some e, w) = rbthash_insert_entry tbl w e >>= λ r. elim r.0 [
    | pos n ↦ ok r
    | negsuc n ↦ ok (r.0, r.1, rbthash_deinit_entry r.1 r.2 e)
  ]

  -- `rbthash_insert`
  unfoldable pub rbthash_insert :
      Table World Tree → World → Option ℕ → Option (List ℕ) → Run (ℤ × Table World Tree × World)
  unfolding rbthash_init_entry insert_made
  rbthash_insert tbl w none key = ok (negsuc 0, tbl, w)
  rbthash_insert tbl w (some value) none = ok (negsuc 0, tbl, w)
  rbthash_insert tbl w (some value) (some key) =
      insert_made tbl (rbthash_init_entry tbl w value key)

  -- `searchentry` of `rbthash_get` and `rbthash_remove`
  abbrev pub searchentry : List ℕ → Entry
  searchentry key = record { id = 0; value = 0; key_at = 0; key = key; keyhash = 0 }

  -- `rbthash_get`
  unfoldable pub rbthash_get : Table World Tree → Option (List ℕ) → Run (Option ℕ)
  unfolding bucket_index rbthash_comparator
  rbthash_get tbl none = ok none
  rbthash_get tbl (some key) = elim (get_elem? tbl.buckets (bucket_index tbl (tbl.hashfunc key))) [
    | none ↦ fault bad_access
    | some t ↦ elim (ops.rb_find rbthash_comparator t (searchentry key)) [
      | none ↦ ok none
      | some e ↦ ok (some e.value)
    ]
  ]

  -- `rbthash_remove`
  unfoldable pub rbthash_remove :
      Table World Tree → World → Option (List ℕ) → Run (Option ℕ × Table World Tree × World)
  unfolding bucket_index rbthash_comparator
  rbthash_remove tbl w none = ok (none, tbl, w)
  rbthash_remove tbl w (some key) =
      let i = bucket_index tbl (tbl.hashfunc key) in
      elim (get_elem? tbl.buckets i) [
        | none ↦ fault bad_access
        | some t ↦
            let out = ops.rb_delete rbthash_comparator w t (searchentry key) in
            let tbl' : Table World Tree = record tbl { buckets = set tbl.buckets i out.1 } in
            elim out.0 [
              | none ↦ ok (none, tbl', out.2)
              | some e ↦
                  ok (some e.value, tbl', ops.mem_put (ops.free out.2 e.key_at) tbl.entrypool e.id)
            ]
      ]

  -- `rbthash_entry_deiniter` on the entries of a tree, in the order in which `rb_destroy` meets them
  unfoldable pub deinit_entries : Table World Tree → World → List Entry → World
  unfolding rbthash_deinit_entry
  deinit_entries tbl w [] = w
  deinit_entries tbl w (e ∷ es) = deinit_entries tbl (rbthash_deinit_entry tbl w e) es

  -- `rbthash_table_destroy_buckets`
  unfoldable pub rbthash_table_destroy_buckets : Table World Tree → World → List Tree → World
  unfolding deinit_entries
  rbthash_table_destroy_buckets tbl w [] = w
  rbthash_table_destroy_buckets tbl w (t ∷ ts) =
      rbthash_table_destroy_buckets tbl (ops.rb_free (deinit_entries tbl w (ops.rb_items t)) t) ts

  -- `rbthash_table_destroy`
  unfoldable pub rbthash_table_destroy : Table World Tree → World → World
  unfolding rbthash_table_destroy_buckets
  rbthash_table_destroy tbl w =
      let w1 = rbthash_table_destroy_buckets tbl w tbl.buckets in
      let w2 = if tbl.pool_alloced then ops.mem_pool_destroy w1 tbl.entrypool else w1 in
      ops.free (ops.free w2 tbl.buckets_at) tbl.address
