-- ===== src/Event/Mirror.antt =====
-- The kernel's interest list mirrors the registry that `epoll` watches.
use lz_lib.Base.Int.{ℤ, pos, negsuc, eqb_ℤ, eqb_ℤ_iff}
use lz_lib.Base.{
  ℕ, ◌+◌, ◌-◌, ◌≤◌, ◌<◌, ◌≡◌, ◌≢◌, refl, sym, ap, subst, ◌∙◌, inl, inr, true, false, none, some,
  arith, ◌==◌, ==_iff, if◌then◌else◌, Bool-cases, get_elem?, set, length, length-set,
  get_elem?-set_self, get_elem?-set_ne, ok, ◌>>=◌, ok-injective,
}
use lz_lib.Event.{Pool, Reg, getindex}
use lz_lib.Event.Epoll.{Epoll, Watch, watch_of, event_unregister_epoll}
use lz_lib.Event.Index.{IsValid, Finds, getindex-Finds, get_elem?-some}
use lz_lib.Event.Watched.{Documented, Mirrors, mirrored_at, mirrored_apart, fd_at-entry, not_same}
use lz_lib.Event.Removal.{after_removal, removal-Mirrors, last-Mirrors}

module _ (k : Epoll) (doc : Documented k) where
  open doc use {watched, watched-modify, watched-delete}

  -- Of two registries, the second holds, somewhere in use, each entry in use of the first but the descriptor's.
  abbrev pub KeepsOthers : Pool → Pool → ℤ → Type 0
  KeepsOthers pool pool' fd =
      (j : ℕ) (q : Reg)
      → j < pool.used
      → get_elem? pool.reg j ≡ some q
      → q.fd ≢ fd
      → (i : ℕ) × (i < pool'.used) × (get_elem? pool'.reg i ≡ some q)

  -- No entry in use has the descriptor.
  abbrev pub Absent : Pool → ℤ → Type 0
  Absent pool fd = (i : ℕ) (q : Reg) → i < pool.used → get_elem? pool.reg i ≡ some q → q.fd ≢ fd

  mirrored-Absent :
      (s : k.State) (pool : Pool) (fd : ℤ)
      → Mirrors k doc s pool
      → watched s fd ≡ none
      → Absent pool fd
  mirrored-Absent s pool fd m unwatched i q low here same =
      let there = mirrored_at k doc s pool i q m low here in cc (ap (watched s) same)

  -- What `event_unregister_epoll` promises of its result.
  abbrev pub Unregisters : k.State → Pool → ℤ → ℤ → Type 0
  Unregisters s pool fd hint =
      (pool' : Pool) × (s' : k.State) × (event_unregister_epoll k s (some pool) fd hint
        ≡ ok (pos 0, some pool', s'))
      × (pool'.used + 1 ≡ pool.used)
      × (watched s' fd ≡ none)
      × Mirrors k doc s' pool'
      × Absent pool' fd
      × KeepsOthers pool pool' fd

  module _ (s : k.State) (pool : Pool) (fd hint : ℤ) (idx : ℕ) (r : Reg) (m : Mirrors k doc s pool)
      (found : getindex pool fd hint ≡ ok (some idx)) (low : idx < pool.used)
      (here : get_elem? pool.reg idx ≡ some r) (same : r.fd ≡ fd)
      (long : pool.used ≤ length pool.reg) (gone : (k.delete s fd).0 ≡ true)
      (deleted : (f : ℤ)
        → watched (k.delete s fd).1 f ≡ (if eqb_ℤ f r.fd then none else watched s f)) where
    -- An entry of another descriptor stands elsewhere.
    elsewhere : (j : ℕ) (q : Reg) → get_elem? pool.reg j ≡ some q → q.fd ≢ fd → idx ≢ j
    elsewhere j q e other is =
        let at : get_elem? pool.reg idx ≡ some q =
          subst (λ i. get_elem? pool.reg i ≡ some q) (sym is) e in
        let one : r ≡ q = cc in other (sym (ap (λ x. x.fd) one) ∙ same)

    deleted_self : watched (k.delete s fd).1 fd ≡ none
    deleted_self =
        subst (λ f. watched (k.delete s fd).1 f ≡ none) same
          (deleted r.fd ∙ rw ((eqb_ℤ_iff r.fd r.fd).1 refl) refl)

    unregister_last : pool.used - 1 ≡ idx → Unregisters s pool fd hint
    unfolding event_unregister_epoll
    unregister_last last =
        let pool' = record pool {
          reg = set pool.reg idx (record r { fd = negsuc 0 });
          used = pool.used - 1;
        } in
        let s1 = (k.delete s fd).1 in
        let mirrored : Mirrors k doc s1 pool' =
          last-Mirrors k doc s s1 pool idx r m low here last deleted in
        (
          pool',
          s1,
          rw (found, ◌>>=◌, here, gone, (==_iff (pool.used - 1) idx).1 last) refl,
          omega (arith, low),
          deleted_self,
          mirrored,
          mirrored-Absent s1 pool' fd mirrored deleted_self,
          λ j q below e other.
              let apart = elsewhere j q e other in
              (j, omega (arith, last, apart, below), get_elem?-set_ne pool.reg idx j _ apart ∙ e),
        )

    module _ (moved : Reg) (there : get_elem? pool.reg (pool.used - 1) ≡ some moved)
        (other : pool.used - 1 ≢ idx) where
      moved-KeepsOthers :
          KeepsOthers pool
            (record pool {
              reg = set (set pool.reg idx (record r { fd = negsuc 0 })) idx moved;
              used = pool.used - 1;
            })
            fd
      moved-KeepsOthers j q below e not_it = elim (Bool-cases (pool.used - 1 == j)) [
        | inl t ↦
            let is : pool.used - 1 ≡ j = (==_iff (pool.used - 1) j).0 t in
            let at : get_elem? pool.reg j ≡ some moved =
              subst (λ i. get_elem? pool.reg i ≡ some moved) is there in
            let one : moved ≡ q = cc in
            (
              idx,
              omega (arith, low, other),
              get_elem?-set_self (set pool.reg idx _) idx moved
                    (rw length-set (omega (arith, low, long)))
                  ∙ ap some one,
            )
        | inr f ↦
            let apart = elsewhere j q e not_it in
            let before : pool.used - 1 ≢ j =
              λ is. ground (arith, (==_iff (pool.used - 1) j).1 is) in
            (
              j,
              omega (arith, before, below),
              get_elem?-set_ne _ idx j moved apart ∙ get_elem?-set_ne pool.reg idx j _ apart ∙ e,
            )
      ]

      moved_unwatched :
          (s2 : k.State)
          → ((f : ℤ)
              → watched s2 f ≡ (
                  if eqb_ℤ f moved.fd
                  then some (watch_of moved idx)
                  else watched (k.delete s fd).1 f))
          → watched s2 fd ≡ none
      moved_unwatched s2 changed =
          let apart : fd ≢ moved.fd = λ e. other (
            sym (
              mirrored_apart k doc s pool idx (pool.used - 1) r moved m low (omega (arith, low))
                here there (same ∙ e))) in
          changed fd ∙ rw (not_same fd moved.fd apart) deleted_self

      unregister_moved :
          (k.modify (k.delete s fd).1 moved.fd (watch_of moved idx)).0 ≡ true
          → Unregisters s pool fd hint
      unfolding event_unregister_epoll after_removal
      unregister_moved accepted =
          let s1 = (k.delete s fd).1 in
          let w = watch_of moved idx in
          let s2 = (k.modify s1 moved.fd w).1 in
          let cleared : Reg = record r { fd = negsuc 0 } in
          let ne : idx ≢ pool.used - 1 = λ e. other (sym e) in
          let kept = get_elem?-set_ne pool.reg idx (pool.used - 1) cleared ne ∙ there in
          let differs : (pool.used - 1 == idx) ≡ false = ground arith in
          let changed = λ (g : ℤ). watched-modify s1 moved.fd g w accepted in
          let pool' = record pool {
            reg = set (set pool.reg idx cleared) idx moved;
            used = pool.used - 1;
          } in
          let mirrored : Mirrors k doc s2 pool' =
            removal-Mirrors k doc s s1 s2 pool idx r moved m low here long there other deleted
              changed in
          let unwatched = moved_unwatched s2 changed in
          (
            pool',
            s2,
            rw (found, ◌>>=◌, here, gone, differs, kept, accepted) refl,
            omega (arith, low),
            unwatched,
            mirrored,
            mirrored-Absent s2 pool' fd mirrored unwatched,
            moved-KeepsOthers,
          )

  -- On a valid and mirrored registry, if `__event_getindex` finds the descriptor and the kernel accepts
  -- the two calls that are made for it, then `event_unregister_epoll` returns 0 and takes one entry
  -- away, and each entry that is left is watched with its own index.
  pub event_unregister_epoll-Mirrors :
      (s : k.State) (pool : Pool) (fd hint : ℤ) (idx : ℕ)
      → IsValid pool
      → Mirrors k doc s pool
      → getindex pool fd hint ≡ ok (some idx)
      → (k.delete s fd).0 ≡ true
      → ((f : ℤ) (w : Watch) → (k.modify (k.delete s fd).1 f w).0 ≡ true)
      → Unregisters s pool fd hint
  event_unregister_epoll-Mirrors s pool fd hint idx valid m found gone accepted =
      let (o, run, finds) = getindex-Finds pool fd hint valid in
      let is = subst (Finds pool fd) (ok-injective (sym run ∙ found)) finds in
      let long : pool.used ≤ length pool.reg = omega (arith, valid.sized, valid.within) in
      let (r, here) = get_elem?-some pool.reg idx (omega (arith, is.0, long)) in
      let same = fd_at-entry pool.reg idx r fd here is.1 in
      let deleted = λ (f : ℤ).
        subst (λ g. watched (k.delete s fd).1 f ≡ (if eqb_ℤ f g then none else watched s f))
          (sym same) (watched-delete s fd f gone) in
      elim (Bool-cases (pool.used - 1 == idx)) [
        | inl t ↦
            unregister_last s pool fd hint idx r m found is.0 here same long gone deleted
              ((==_iff (pool.used - 1) idx).0 t)
        | inr f ↦
            let (moved, there) =
              get_elem?-some pool.reg (pool.used - 1) (omega (arith, is.0, long)) in
            unregister_moved s pool fd hint idx r m found is.0 here same long gone deleted moved
              there (λ e. ground arith) (accepted moved.fd (watch_of moved idx))
      ]
