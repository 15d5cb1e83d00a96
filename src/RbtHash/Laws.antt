-- ===== src/RbtHash/Laws.antt =====
-- The table as a map from keys to values.
use lz_lib.Base.{
  ℕ, zero, suc, ◌≡◌, ◌⊎◌, inl, inr, refl, sym, ap, ◌∙◌, Option, none, some, List, [], ◌∷◌, length,
  get_elem?, set, length-set, eq_bytes, if◌then◌else◌, ok, Option-cases,
}
use lz_lib.Base.Int.{ℤ, pos, negsuc}
use lz_lib.RbtHash.{
  Entry, Ops, Table, rbthash_comparator, bucket_index, rbthash_init_entry, rbthash_deinit_entry,
  rbthash_insert_entry, rbthash_insert, insert_made, searchentry, rbthash_get, rbthash_remove,
}
use lz_lib.RbtHash.Order.{rbthash_comparator_keys}
use lz_lib.RbtHash.Buckets.{
  value_of, Trees, IsValid, lookup, order, index, index_inside, bucket_there, get_at, replaced,
}

module _ {World Tree : Type 0} (ops : Ops World Tree) where
  -- There is no memory for an entry, for the copy of its key, or for a node of a tree.
  abbrev pub NoMemory : World → Table World Tree → List ℕ → Type 0
  NoMemory w tbl key =
      (ops.mem_get w tbl.entrypool ≡ none)
      ⊎ ((id : ℕ) × (w1 : World) × (ops.mem_get w tbl.entrypool ≡ some (id, w1))
          × (ops.calloc w1 (length key) ≡ none))
      ⊎ ((e : Entry) × (t : Tree) × (w1 : World) × (e.key ≡ key)
          × (ops.rb_probe rbthash_comparator w1 t e ≡ none))

  -- How `rbthash_insert` leaves the table: it is as before, or holds the key with the value.
  abbrev pub Inserted :
      World → Table World Tree → ℕ → List ℕ → ℤ × Table World Tree × World → Type 0
  Inserted w tbl value key (ret, tbl', w') =
      IsValid ops tbl'
      × (((ret ≡ negsuc 0)
            × NoMemory w tbl key
            × ((k : List ℕ) → rbthash_get ops tbl' (some k) ≡ rbthash_get ops tbl (some k)))
          ⊎ ((ret ≡ pos 0)
              × (rbthash_get ops tbl (some key) ≡ ok none)
              × ((k : List ℕ)
                  → rbthash_get ops tbl' (some k)
                    ≡ (if eq_bytes k key then ok (some value) else rbthash_get ops tbl (some k))))
          ⊎ ((ret ≡ pos 0)
              × ((old : ℕ) × (rbthash_get ops tbl (some key) ≡ ok (some old)))
              × ((k : List ℕ) → rbthash_get ops tbl' (some k) ≡ rbthash_get ops tbl (some k))))

  module _ (law : Trees ops) where
    found_by_key :
        (tbl : Table World Tree) (t : Tree) (e : Entry)
        → get_elem? tbl.buckets (index ops tbl e.key) ≡ some t
        → lookup ops tbl e.key ≡ ok (value_of (ops.rb_find rbthash_comparator t e))
    found_by_key tbl t e at =
        get_at ops tbl e.key t at
        ∙ ap (λ x. ok (value_of x))
            (law.rb_find rbthash_comparator t (searchentry ops e.key) e (order ops) (
              rbthash_comparator_keys (searchentry ops e.key) e e e refl refl ∙ (order ops).same e))

    set_same :
        {A : Type 0} (xs : List A) (i : ℕ) (x : A) → get_elem? xs i ≡ some x → set xs i x ≡ xs
    set_same [] i x h = refl
    set_same (y ∷ xs) zero x h = cc h
    set_same (y ∷ xs) (suc i) x h = ap (λ t. y ∷ t) (set_same xs i x h)

    abbrev new_entry : Table World Tree → ℕ → ℕ → ℕ → List ℕ → Entry
    new_entry tbl id value copy key = record {
      id = id;
      value = value;
      key_at = copy;
      key = key;
      keyhash = tbl.hashfunc key;
    }

    init_entry_cases :
        (tbl : Table World Tree) (w : World) (value : ℕ) (key : List ℕ)
        → ((w' : World) × (rbthash_init_entry ops tbl w value key ≡ (none, w'))
            × NoMemory w tbl key)
          ⊎ ((id : ℕ) × (copy : ℕ) × (w' : World) × (rbthash_init_entry ops tbl w value key
                ≡ (some (new_entry tbl id value copy key), w')))
    unfolding rbthash_init_entry
    init_entry_cases tbl w value key = elim (Option-cases (ops.mem_get w tbl.entrypool)) [
      | inl n ↦ inl (w, rw (rbthash_init_entry, n) refl, inl n)
      | inr ((id, w1), got) ↦ elim (Option-cases (ops.calloc w1 (length key))) [
        | inl n ↦ inl (
          ops.mem_put w1 tbl.entrypool id,
          rw (rbthash_init_entry, got, n) refl,
          inr (inl (id, w1, got, n)),
        )
        | inr ((copy, w2), there) ↦ inr (id, copy, w2, rw (rbthash_init_entry, got, there) refl)
      ]
    ]

    insert_entry-Inserted :
        (w0 : World) (tbl : Table World Tree) (w : World) (id value copy : ℕ) (key : List ℕ)
        → IsValid ops tbl
        → (r : ℤ × Table World Tree × World) × (rbthash_insert_entry ops tbl w
              (new_entry tbl id value copy key)
            ≡ ok r)
          × Inserted w0 tbl value key r
    unfolding rbthash_insert_entry bucket_index
    insert_entry-Inserted w0 tbl w id value copy key v =
        let e = new_entry tbl id value copy key in
        let i = index ops tbl e.key in
        let (t, at) = bucket_there ops tbl.buckets i (index_inside ops tbl e.key v) in
        elim (law.rb_probe rbthash_comparator w t e (order ops)) [
          | inl none_given ↦ (
            (negsuc 0, tbl, w),
            rw (rbthash_insert_entry, at, none_given) refl,
            (v, inl (refl, inr (inr (e, t, w, refl, none_given)), λ k. refl)),
          )
          | inr (inl (x, w', run, found)) ↦ (
            (pos 0, record tbl { buckets = set tbl.buckets i t }, w'),
            rw (rbthash_insert_entry, at, run) refl,
            (
              record { sized = length-set tbl.buckets i t ∙ v.sized; some_bucket = v.some_bucket },
              inr (
                  inr (
                    refl,
                    (x.value, found_by_key tbl t e at ∙ ap (λ y. ok (value_of y)) found),
                    λ k.
                        ap (λ bs. lookup ops (record tbl { buckets = bs }) k)
                          (set_same tbl.buckets i t at),
                  )),
            ),
          )
          | inr (inr (t', w', run, missing, after)) ↦ (
            (pos 0, record tbl { buckets = set tbl.buckets i t' }, w'),
            rw (rbthash_insert_entry, at, run) refl,
            (
              record { sized = length-set tbl.buckets i t' ∙ v.sized; some_bucket = v.some_bucket },
              inr (
                  inl (
                    refl,
                    found_by_key tbl t e at ∙ ap (λ y. ok (value_of y)) missing,
                    replaced ops tbl e t t' (some e) v at after,
                  )),
            ),
          )
        ]

    insert_made_run :
        (tbl : Table World Tree) (w : World) (e : Entry) (r : ℤ × Table World Tree × World)
        → rbthash_insert_entry ops tbl w e ≡ ok r
        → (w' : World) × (insert_made ops tbl (some e, w) ≡ ok (r.0, r.1, w'))
    unfolding insert_made
    insert_made_run tbl w e (pos n, tbl', w') run = (w', rw run refl)
    insert_made_run tbl w e (negsuc n, tbl', w') run =
        (rbthash_deinit_entry ops tbl' w' e, rw run refl)

    -- `rbthash_insert` of a value under a key, on a valid table over trees as `Trees` has them: it returns, and the table
    -- stays valid. If it returns -1, there was no memory, and no key finds anything else than before. If it returns 0 and
    -- the key was not in the table, the key finds the value, and every other key what it found before. If it returns 0 and
    -- the key was in the table, every key finds what it found before: the value is not in the table.
    pub rbthash_insert-Inserted :
        (tbl : Table World Tree) (w : World) (value : ℕ) (key : List ℕ)
        → IsValid ops tbl
        → (r : ℤ × Table World Tree × World) × (rbthash_insert ops tbl w (some value) (some key)
            ≡ ok r)
          × Inserted w tbl value key r
    unfolding rbthash_insert insert_made
    rbthash_insert-Inserted tbl w value key v = elim (init_entry_cases tbl w value key) [
      | inl (w', made, why) ↦ ((negsuc 0, tbl, w'), rw made refl, (v, inl (refl, why, λ k. refl)))
      | inr (id, copy, w', made) ↦
          let e = new_entry tbl id value copy key in
          let (r, run, out) = insert_entry-Inserted w tbl w' id value copy key v in
          let (w'', go) = insert_made_run tbl w' e r run in ((r.0, r.1, w''), rw made go, out)
    ]

    -- `rbthash_remove` of a key, on a valid table over trees as `Trees` has them: it returns what the key finds, the table
    -- stays valid, the key finds nothing, and every other key what it found before.
    pub rbthash_remove-get :
        (tbl : Table World Tree) (w : World) (key : List ℕ)
        → IsValid ops tbl
        → (x : Option ℕ) × (tbl' : Table World Tree) × (w' : World) × (rbthash_remove ops tbl w
              (some key)
            ≡ ok (x, tbl', w'))
          × (rbthash_get ops tbl (some key) ≡ ok x)
          × IsValid ops tbl'
          × ((k : List ℕ)
              → rbthash_get ops tbl' (some k)
                ≡ (if eq_bytes k key then ok none else rbthash_get ops tbl (some k)))
    unfolding rbthash_remove
    rbthash_remove-get tbl w key v =
        let i = index ops tbl key in
        let (t, at) = bucket_there ops tbl.buckets i (index_inside ops tbl key v) in
        let s = searchentry ops key in
        let out = ops.rb_delete rbthash_comparator w t s in
        let (taken, after) = law.rb_delete rbthash_comparator w t s (order ops) in
        let tbl' : Table World Tree = record tbl { buckets = set tbl.buckets i out.1 } in
        let valid : IsValid ops tbl' = record {
          sized = length-set tbl.buckets i out.1 ∙ v.sized;
          some_bucket = v.some_bucket;
        } in
        let found = get_at ops tbl key t at ∙ ap (λ y. ok (value_of y)) (sym taken) in
        let rest = replaced ops tbl s t out.1 none v at after in
        elim (Option-cases out.0) [
          | inl n ↦ (
            none,
            tbl',
            out.2,
            rw (rbthash_remove, at, n) refl,
            found ∙ ap (λ y. ok (value_of y)) n,
            valid,
            rest,
          )
          | inr (e, y) ↦ (
            some e.value,
            tbl',
            ops.mem_put (ops.free out.2 e.key_at) tbl.entrypool e.id,
            rw (rbthash_remove, at, y) refl,
            found ∙ ap (λ y. ok (value_of y)) y,
            valid,
            rest,
          )
        ]
