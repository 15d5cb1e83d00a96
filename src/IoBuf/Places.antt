-- ===== src/IoBuf/Places.antt =====
-- Where an arena stands on the lists of a pool: what taking it off, changing it and looking for it do there.
use lz_lib.Base.{
  ==_refl, ℕ, ◌≡◌, ◌≢◌, refl, ap, ◌∙◌, inl, inr, Bool, true, false, some, List, [], ◌∷◌, ◌++◌, ◌==◌,
  Bool-cases, All, arith,
}
use lz_lib.IoBuf.{Arena, Pool}
use lz_lib.IoBuf.Transfer.{
  first_free, find_arena, drop_arena, write_arena, arena_of, list_del_arena, store_arena,
}

-- No arena of the list is at the address.
abbrev pub Apart : ℕ → List Arena → Type 0
Apart id xs = All (λ x. x.id ≢ id) xs

drop_arena-absent : (id : ℕ) (xs : List Arena) → Apart id xs → drop_arena id xs ≡ xs
unfolding drop_arena
drop_arena-absent id [] h = refl
drop_arena-absent id (x ∷ xs) h = elim (Bool-cases (x.id == id)) [
  | inl t ↦ absurd (h.0 (ground arith))
  | inr f ↦ rw f (ap (◌∷◌ x) (drop_arena-absent id xs h.1))
]

write_arena-absent : (v : Arena) (xs : List Arena) → Apart v.id xs → write_arena v xs ≡ xs
unfolding write_arena
write_arena-absent v [] h = refl
write_arena-absent v (x ∷ xs) h = elim (Bool-cases (x.id == v.id)) [
  | inl t ↦ absurd (h.0 (ground arith))
  | inr f ↦ rw f (ap (◌∷◌ x) (write_arena-absent v xs h.1))
]

module _ (a : Arena) (after : List Arena) where
  drop_arena-middle :
      (before : List Arena)
      → Apart a.id before
      → drop_arena a.id (before ++ a ∷ after) ≡ before ++ after
  unfolding drop_arena
  drop_arena-middle [] h = rw (==_refl a.id) refl
  drop_arena-middle (x ∷ before) h = elim (Bool-cases (x.id == a.id)) [
    | inl t ↦ absurd (h.0 (ground arith))
    | inr f ↦ rw f (ap (◌∷◌ x) (drop_arena-middle before h.1))
  ]

  write_arena-middle :
      (v : Arena) (before : List Arena)
      → a.id ≡ v.id
      → Apart v.id before
      → write_arena v (before ++ a ∷ after) ≡ before ++ v ∷ after
  unfolding write_arena
  write_arena-middle v [] e h = rw (e, ==_refl v.id) refl
  write_arena-middle v (x ∷ before) e h = elim (Bool-cases (x.id == v.id)) [
    | inl t ↦ absurd (h.0 (ground arith))
    | inr f ↦ rw f (ap (◌∷◌ x) (write_arena-middle v before e h.1))
  ]

  find_arena-middle :
      (before : List Arena) → Apart a.id before → find_arena a.id (before ++ a ∷ after) ≡ some a
  unfolding find_arena
  find_arena-middle [] h = rw (==_refl a.id) refl
  find_arena-middle (x ∷ before) h = elim (Bool-cases (x.id == a.id)) [
    | inl t ↦ absurd (h.0 (ground arith))
    | inr f ↦ rw f (find_arena-middle before h.1)
  ]

  -- The first arena with a free buffer, behind arenas without one.
  pub first_free-middle :
      (before : List Arena)
      → All (λ x. x.passive_cnt ≡ 0) before
      → a.passive_cnt ≢ 0
      → first_free (before ++ a ∷ after) ≡ some a
  unfolding first_free
  first_free-middle [] h left = elim (Bool-cases (a.passive_cnt == 0)) [
    | inl t ↦ absurd (left (ground arith))
    | inr f ↦ rw f refl
  ]
  first_free-middle (x ∷ before) h left = rw h.0 (first_free-middle before h.1 left)

find_arena-skip :
    (id : ℕ) (xs ys : List Arena) → Apart id xs → find_arena id (xs ++ ys) ≡ find_arena id ys
unfolding find_arena
find_arena-skip id [] ys h = refl
find_arena-skip id (x ∷ xs) ys h = elim (Bool-cases (x.id == id)) [
  | inl t ↦ absurd (h.0 (ground arith))
  | inr f ↦ rw f (find_arena-skip id xs ys h.1)
]

find_arena-front :
    (id : ℕ) (a : Arena) (xs ys : List Arena)
    → find_arena id xs ≡ some a
    → find_arena id (xs ++ ys) ≡ some a
unfolding find_arena
find_arena-front id a [] ys h = cc
find_arena-front id a (x ∷ xs) ys h = elim (Bool-cases (x.id == id)) [
  | inl t ↦ rw t (ground arith)
  | inr f ↦ rw f (find_arena-front id a xs ys (ground arith))
]

-- The pool with another list of arenas (false) or of filled arenas (true), and the one of the two that stays.
abbrev pub holding : Bool → Pool → List Arena → Pool
holding false pool xs = record pool { arenas = xs }
holding true pool xs = record pool { filled = xs }

abbrev pub beside : Bool → Pool → List Arena
beside false pool = pool.filled
beside true pool = pool.arenas

module _ (pool : Pool) (xs ys : List Arena) (a : Arena) (first : Apart a.id xs)
    (unpurged : Apart a.id pool.purge) where
  pub list_del_arena-holding :
      (side : Bool)
      → Apart a.id (beside side pool)
      → list_del_arena a.id (holding side pool (xs ++ a ∷ ys)) ≡ holding side pool (xs ++ ys)
  unfolding list_del_arena
  list_del_arena-holding false h =
      rw
        (
          drop_arena-middle a ys xs first,
          drop_arena-absent a.id pool.filled h,
          drop_arena-absent a.id pool.purge unpurged,
        )
        refl
  list_del_arena-holding true h =
      rw
        (
          drop_arena-middle a ys xs first,
          drop_arena-absent a.id pool.arenas h,
          drop_arena-absent a.id pool.purge unpurged,
        )
        refl

  pub store_arena-holding :
      (side : Bool) (v : Arena)
      → a.id ≡ v.id
      → Apart v.id xs
      → Apart v.id pool.purge
      → Apart v.id (beside side pool)
      → store_arena v (holding side pool (xs ++ a ∷ ys)) ≡ holding side pool (xs ++ v ∷ ys)
  unfolding store_arena
  store_arena-holding false v e f u h =
      rw
        (
          write_arena-middle a ys v xs e f,
          write_arena-absent v pool.filled h,
          write_arena-absent v pool.purge u,
        )
        refl
  store_arena-holding true v e f u h =
      rw
        (
          write_arena-middle a ys v xs e f,
          write_arena-absent v pool.arenas h,
          write_arena-absent v pool.purge u,
        )
        refl

  pub arena_of-holding :
      (side : Bool)
      → Apart a.id (beside side pool)
      → arena_of (holding side pool (xs ++ a ∷ ys)) a.id ≡ some a
  unfolding arena_of
  arena_of-holding false h =
      let l = xs ++ a ∷ ys in
      find_arena-front a.id a (l ++ pool.filled) pool.purge
        (find_arena-front a.id a l pool.filled (find_arena-middle a ys xs first))
  arena_of-holding true h =
      let l = xs ++ a ∷ ys in
      find_arena-front a.id a (pool.arenas ++ l) pool.purge
        (find_arena-skip a.id pool.arenas l h ∙ find_arena-middle a ys xs first)
