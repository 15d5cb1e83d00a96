-- ===== src/RbtHash/Tests.antt =====
-- A table whose trees are lists.
use lz_lib.Base.{
  ℕ, suc, ◌+◌, ◌≡◌, inl, inr, refl, sym, ap, ◌∙◌, true, false, Option, none, some, List, [], ◌∷◌,
  length, eq_bytes, if◌then◌else◌, ok, arith, Bool-cases, Option-cases,
}
use lz_lib.Base.Int.{ℤ, pos, eqb_ℤ}
use lz_lib.RbtHash.{Entry, Ops, Table, rbthash_insert, rbthash_get, rbthash_remove}
use lz_lib.RbtHash.Order.{IsOrder}
use lz_lib.RbtHash.Buckets.{Trees, IsValid}
use lz_lib.RbtHash.Laws.{Inserted, rbthash_insert-Inserted, rbthash_remove-get}

abbrev find_in : (Entry → Entry → ℤ) → List Entry → Entry → Option Entry
find_in cmp [] e = none
find_in cmp (x ∷ xs) e =
    let rest = find_in cmp xs e in if eqb_ℤ (cmp e x) (pos 0) then some x else rest

abbrev probe_of : Option Entry → ℕ → List Entry → Entry → Option (Entry × List Entry × ℕ)
probe_of none w t e = some (e, e ∷ t, suc w)
probe_of (some x) w t e = some (x, t, w)

abbrev without : (Entry → Entry → ℤ) → List Entry → Entry → List Entry
without cmp [] e = []
without cmp (x ∷ xs) e =
    let rest = without cmp xs e in if eqb_ℤ (cmp e x) (pos 0) then rest else x ∷ rest

-- A world is the number of allocations.
abbrev lists : Ops ℕ (List Entry)
lists = record {
  rb_create = λ w. some ([], suc w);
  rb_probe = λ cmp w t e. probe_of (find_in cmp t e) w t e;
  rb_find = find_in;
  rb_delete = λ cmp w t e. (find_in cmp t e, without cmp t e, w);
  rb_items = λ t. t;
  rb_free = λ w t. w;
  calloc = λ w n. some (100 + w, suc w);
  free = λ w a. w;
  mem_pool_new = λ w n. some (50, suc w);
  mem_pool_destroy = λ w p. w;
  mem_get = λ w p. some (200 + w, suc w);
  mem_put = λ w p e. w;
}

zero_test : (z : ℤ) → eqb_ℤ z (pos 0) ≡ true → z ≡ pos 0
zero_test z e = ground (arith, e)

-- Entries that compare as equal do so either way around.
zero_back :
    (cmp : Entry → Entry → ℤ) (a b : Entry) → IsOrder cmp → cmp a b ≡ pos 0 → cmp b a ≡ pos 0
zero_back cmp a b o e = sym (o.equal a b a e) ∙ o.same a

find_in_equal :
    (cmp : Entry → Entry → ℤ) (t : List Entry) (a b : Entry)
    → IsOrder cmp
    → cmp a b ≡ pos 0
    → find_in cmp t a ≡ find_in cmp t b
find_in_equal cmp [] a b o e = refl
find_in_equal cmp (x ∷ xs) a b o e = rw (o.equal a b x e, find_in_equal cmp xs a b o e) refl

find_in-without :
    (cmp : Entry → Entry → ℤ) (t : List Entry) (e k : Entry)
    → IsOrder cmp
    → find_in cmp (without cmp t e) k ≡ (if eqb_ℤ (cmp k e) (pos 0) then none else find_in cmp t k)
find_in-without cmp [] e k o = elim (Bool-cases (eqb_ℤ (cmp k e) (pos 0))) [
  | inl h ↦ rw h refl
  | inr h ↦ rw h refl
]
find_in-without cmp (x ∷ xs) e k o =
    let rest = find_in-without cmp xs e k o in
    elim (Bool-cases (eqb_ℤ (cmp e x) (pos 0))) [
      | inl same ↦
          let alike = zero_back cmp e x o (zero_test (cmp e x) same) in
          elim (Bool-cases (eqb_ℤ (cmp k e) (pos 0))) [
            | inl h ↦ rw (same, h) (rest ∙ rw h refl)
            | inr h ↦
                let other : eqb_ℤ (cmp k x) (pos 0) ≡ false =
                  elim (Bool-cases (eqb_ℤ (cmp k x) (pos 0))) [
                    | inl y ↦
                        absurd (ground (arith, h, o.equal k x e (zero_test (cmp k x) y) ∙ alike))
                    | inr n ↦ n
                  ] in
                rw (same, h, other) (rest ∙ rw h refl)
          ]
      | inr apart ↦ elim (Bool-cases (eqb_ℤ (cmp k e) (pos 0))) [
        | inl h ↦
            let alike : cmp k x ≡ cmp e x = o.equal k e x (zero_test (cmp k e) h) in
            rw (apart, h, alike, apart) (rest ∙ rw h refl)
        | inr h ↦
            rw (apart, h)
              (ap (λ r. if eqb_ℤ (cmp k x) (pos 0) then some x else r) (rest ∙ rw h refl))
      ]
    ]

lists-Trees : Trees lists
lists-Trees = record {
  rb_create = λ cmp w w' t k e. let empty : t ≡ [] = sym (made e) in rw empty refl;
  rb_find = λ cmp t a b o e. find_in_equal cmp t a b o e;
  rb_probe = λ cmp w t e o. elim (Option-cases (find_in cmp t e)) [
    | inl n ↦ inr (inr (e ∷ t, suc w, rw n refl, n, λ k. refl))
    | inr (x, y) ↦ inr (inl (x, w, rw y refl, y))
  ];
  rb_delete = λ cmp w t e o. (refl, λ k. find_in-without cmp t e k o);
}
  where
    made : {w w' : ℕ} {t : List Entry} → lists.rb_create w ≡ some (t, w') → [] ≡ t
    made e = cc e

abbrev first_entry : Entry
first_entry = record { id = 201; value = 31; key_at = 101; key = 8 ∷ (9 ∷ []); keyhash = 2 }

abbrev second_entry : Entry
second_entry = record { id = 202; value = 32; key_at = 102; key = 7 ∷ []; keyhash = 1 }

-- Two buckets, with the keys 7 and 8, 9 in them.
abbrev two_buckets : Table ℕ (List Entry)
two_buckets = record {
  address = 1;
  buckets_at = 2;
  numbuckets = 2;
  buckets = (first_entry ∷ []) ∷ ((second_entry ∷ []) ∷ []);
  entrypool = 50;
  hashfunc = length;
  dfunc = none;
  pool_alloced = true;
}

two_buckets-IsValid : IsValid lists two_buckets
two_buckets-IsValid = record { sized = refl; some_bucket = omega arith }

rbthash_insert-Inserted_example :
    (r : ℤ × Table ℕ (List Entry) × ℕ) × (rbthash_insert lists two_buckets 3
        (some 33)
        (some (6 ∷ []))
      ≡ ok r)
    × Inserted lists 3 two_buckets 33 (6 ∷ []) r
rbthash_insert-Inserted_example =
    rbthash_insert-Inserted lists lists-Trees two_buckets 3 33 (6 ∷ []) two_buckets-IsValid

rbthash_remove-get_example :
    (x : Option ℕ) × (tbl' : Table ℕ (List Entry)) × (w' : ℕ) × (rbthash_remove lists two_buckets 3
        (some (8 ∷ (9 ∷ [])))
      ≡ ok (x, tbl', w'))
    × (rbthash_get lists two_buckets (some (8 ∷ (9 ∷ []))) ≡ ok x)
    × IsValid lists tbl'
    × ((k : List ℕ)
        → rbthash_get lists tbl' (some k)
          ≡ (if eq_bytes k (8 ∷ (9 ∷ [])) then ok none else rbthash_get lists two_buckets (some k)))
rbthash_remove-get_example =
    rbthash_remove-get lists lists-Trees two_buckets 3 (8 ∷ (9 ∷ [])) two_buckets-IsValid
