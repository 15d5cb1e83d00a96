-- ===== src/RbtHash/Buckets.antt =====
-- The bucket of a key, and a change of one bucket.
use lz_lib.Base.{
  ℕ, zero, suc, ◌<◌, ◌≡◌, ◌≢◌, ◌⊎◌, inl, inr, refl, sym, ap, ◌∙◌, Option, none, some, List, [], ◌∷◌,
  length, get_elem?, set, get_elem?-set_self, get_elem?-set_ne, eq_bytes, eq_bytes→eq,
  eq_bytes_refl, ◌==◌, if◌then◌else◌, Run, ok, arith, Bool-cases,
}
use lz_lib.Base.Int.{ℤ, pos, eqb_ℤ}
use lz_lib.RbtHash.{Entry, Ops, Table, rbthash_comparator, bucket_index, searchentry, rbthash_get}
use lz_lib.RbtHash.Order.{IsOrder, rbthash_comparator-IsOrder}

abbrev pub value_of : Option Entry → Option ℕ
value_of none = none
value_of (some e) = some e.value

module _ {World Tree : Type 0} (ops : Ops World Tree) where
  -- What the table relies on, of trees whose comparison is an order: a new tree has no item; what is found of an item depends
  -- on the comparison alone; `rb_probe` finds an item, or inserts one if none compares as equal and there is memory; and
  -- `rb_delete` takes out and returns what is found.
  pub record Trees : Type 0 where
    pub rb_create :
        (cmp : Entry → Entry → ℤ) (w w' : World) (t : Tree) (k : Entry)
        → ops.rb_create w ≡ some (t, w')
        → ops.rb_find cmp t k ≡ none
    pub rb_find :
        (cmp : Entry → Entry → ℤ) (t : Tree) (a b : Entry)
        → IsOrder cmp
        → cmp a b ≡ pos 0
        → ops.rb_find cmp t a ≡ ops.rb_find cmp t b
    pub rb_probe :
        (cmp : Entry → Entry → ℤ) (w : World) (t : Tree) (e : Entry)
        → IsOrder cmp
        → (ops.rb_probe cmp w t e ≡ none)
          ⊎ ((x : Entry) × (w' : World) × (ops.rb_probe cmp w t e ≡ some (x, t, w'))
              × (ops.rb_find cmp t e ≡ some x))
          ⊎ ((t' : Tree) × (w' : World) × (ops.rb_probe cmp w t e ≡ some (e, t', w'))
              × (ops.rb_find cmp t e ≡ none)
              × ((k : Entry)
                  → ops.rb_find cmp t' k
                    ≡ (if eqb_ℤ (cmp k e) (pos 0) then some e else ops.rb_find cmp t k)))
    pub rb_delete :
        (cmp : Entry → Entry → ℤ) (w : World) (t : Tree) (e : Entry)
        → IsOrder cmp
        → ((ops.rb_delete cmp w t e).0 ≡ ops.rb_find cmp t e)
          × ((k : Entry)
              → ops.rb_find cmp (ops.rb_delete cmp w t e).1 k
                ≡ (if eqb_ℤ (cmp k e) (pos 0) then none else ops.rb_find cmp t k))

  -- A table has as many buckets as it says, and one at least.
  pub record IsValid (tbl : Table World Tree) : Type 0 where
    pub sized : length tbl.buckets ≡ tbl.numbuckets
    pub some_bucket : 0 < tbl.numbuckets

  abbrev pub lookup : Table World Tree → List ℕ → Run (Option ℕ)
  lookup tbl k = rbthash_get ops tbl (some k)

  pub order : IsOrder rbthash_comparator
  order = (rbthash_comparator-IsOrder (searchentry ops []) (searchentry ops [])).0

  abbrev pub index : (tbl : Table World Tree) → List ℕ → ℕ
  index tbl k = bucket_index ops tbl (tbl.hashfunc k)

  pub index_inside :
      (tbl : Table World Tree) (k : List ℕ) → IsValid tbl → index tbl k < length tbl.buckets
  unfolding bucket_index
  index_inside tbl k v = let h = v.some_bucket in omega (arith, h, v.sized)

  pub bucket_there :
      {A : Type 0} (xs : List A) (i : ℕ) → i < length xs → (x : A) × (get_elem? xs i ≡ some x)
  bucket_there [] i h = absurd (omega arith)
  bucket_there (x ∷ xs) zero h = (x, refl)
  bucket_there (x ∷ xs) (suc i) h = bucket_there xs i (omega arith)

  pub get_at :
      (tbl : Table World Tree) (k : List ℕ) (t : Tree)
      → get_elem? tbl.buckets (index tbl k) ≡ some t
      → lookup tbl k ≡ ok (value_of (ops.rb_find rbthash_comparator t (searchentry ops k)))
  unfolding rbthash_get
  get_at tbl k t e =
      rw (rbthash_get, e) (found (ops.rb_find rbthash_comparator t (searchentry ops k)))
    where
      found :
          (x : Option Entry)
          → elim x as (λ x. Run (Option ℕ)) [ none ↦ ok none | some e ↦ ok (some e.value) ]
            ≡ ok (value_of x)
      found none = refl
      found (some e) = refl

  key_test :
      (k : List ℕ) (e : Entry)
      → eqb_ℤ (rbthash_comparator (searchentry ops k) e) (pos 0) ≡ eq_bytes k e.key
  key_test k e = elim (rbthash_comparator-IsOrder (searchentry ops k) e).1 [
    | inl (z, same) ↦ rw (z, same, eq_bytes_refl e.key) refl
    | inr (n, other) ↦ elim (Bool-cases (eq_bytes k e.key)) [
      | inl t ↦ absurd (other (eq_bytes→eq k e.key t))
      | inr f ↦ elim (Bool-cases (eqb_ℤ (rbthash_comparator (searchentry ops k) e) (pos 0))) [
        | inl t ↦ absurd (n (ground (arith, t)))
        | inr g ↦ g ∙ sym f
      ]
    ]
  ]

  -- A new tree in the bucket of a key changes nothing but what is found under this key.
  pub replaced :
      (tbl : Table World Tree) (s : Entry) (t t' : Tree) (x : Option Entry)
      → IsValid tbl
      → get_elem? tbl.buckets (index tbl s.key) ≡ some t
      → ((k : Entry)
          → ops.rb_find rbthash_comparator t' k ≡ (
              if eqb_ℤ (rbthash_comparator k s) (pos 0)
              then x
              else ops.rb_find rbthash_comparator t k))
      → (k : List ℕ)
      → lookup (record tbl { buckets = set tbl.buckets (index tbl s.key) t' }) k
        ≡ (if eq_bytes k s.key then ok (value_of x) else lookup tbl k)
  unfolding bucket_index
  replaced tbl s t t' x v at law k =
      let i = index tbl s.key in
      let tbl' : Table World Tree = record tbl { buckets = set tbl.buckets i t' } in
      elim (Bool-cases (index tbl k == i)) [
        | inl e ↦
            let same : index tbl k ≡ i = ground (arith, e) in
            let now : get_elem? (set tbl.buckets i t') (index tbl k) ≡ some t' =
              ap (get_elem? (set tbl.buckets i t')) same
              ∙ get_elem?-set_self tbl.buckets i t' (index_inside tbl s.key v) in
            let before : get_elem? tbl.buckets (index tbl k) ≡ some t =
              ap (get_elem? tbl.buckets) same ∙ at in
            get_at tbl' k t' now
            ∙ ap (λ y. ok (value_of y))
                (law (searchentry ops k)
                  ∙ ap (λ b. if b then x else ops.rb_find rbthash_comparator t (searchentry ops k))
                      (key_test k s))
            ∙ elim (Bool-cases (eq_bytes k s.key)) [
              | inl y ↦ rw y refl
              | inr n ↦ rw n (sym (get_at tbl k t before))
            ]
        | inr e ↦
            let other : i ≢ index tbl k = λ h. ground (arith, e, h) in
            let (u, there) = bucket_there tbl.buckets (index tbl k) (index_inside tbl k v) in
            let kept = get_elem?-set_ne tbl.buckets i (index tbl k) t' other in
            elim (Bool-cases (eq_bytes k s.key)) [
              | inl y ↦ absurd (other (ap (index tbl) (sym (eq_bytes→eq k s.key y))))
              | inr n ↦ rw n (get_at tbl' k u (kept ∙ there) ∙ sym (get_at tbl k u there))
            ]
      ]
