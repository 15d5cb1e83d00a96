-- ===== src/Event/Removal.antt =====
-- The registry and the kernel behind `event_unregister_epoll` of src/event.c.
use lz_lib.Base.Int.{ℤ, negsuc, eqb_ℤ, eqb_ℤ_iff}
use lz_lib.Base.{
  ℕ, ◌-◌, ◌≤◌, ◌<◌, ◌≡◌, ◌≢◌, refl, sym, ap, subst, ◌∙◌, inl, inr, none, some, List, arith, ◌==◌,
  if◌then◌else◌, Bool-cases, get_elem?, set, length, length-set, get_elem?-set_self,
  get_elem?-set_ne,
}
use lz_lib.Event.{Pool, Reg}
use lz_lib.Event.Epoll.{Epoll, watch_of}
use lz_lib.Event.Watched.{Documented, Mirrors, mirrored_apart, not_same}

module _ (k : Epoll) (doc : Documented k) where
  open doc use {watched}

  -- The registry and the kernel behind a removal: the watch of the descriptor deleted, the last entry
  -- moved to the index that is free.
  module _ (s s1 s2 : k.State) (pool : Pool) (idx : ℕ) (r moved : Reg) (m : Mirrors k doc s pool)
      (low : idx < pool.used) (here : get_elem? pool.reg idx ≡ some r)
      (long : pool.used ≤ length pool.reg) (there : get_elem? pool.reg (pool.used - 1) ≡ some moved)
      (other : pool.used - 1 ≢ idx)
      (deleted : (f : ℤ) → watched s1 f ≡ (if eqb_ℤ f r.fd then none else watched s f))
      (changed : (f : ℤ)
        → watched s2 f
          ≡ (if eqb_ℤ f moved.fd then some (watch_of moved idx) else watched s1 f)) where
    unfoldable pub after_removal : List Reg
    after_removal = set (set pool.reg idx (record r { fd = negsuc 0 })) idx moved

    pub removal-Mirrors :
        (i : ℕ)
        → i < pool.used - 1
        → (q : Reg) × (get_elem? after_removal i ≡ some q) × (watched s2 q.fd ≡ some (watch_of q i))
    unfolding after_removal
    removal-Mirrors i below = elim (Bool-cases (i == idx)) [
      | inl t ↦
          let e : idx ≡ i = ground arith in
          let cleared = record r { fd = negsuc 0 } in
          (
            moved,
            subst (λ j. get_elem? after_removal j ≡ some moved) e
                (get_elem?-set_self (set pool.reg idx cleared) idx moved
                  (rw length-set (omega arith))),
            changed moved.fd
                ∙ rw ((eqb_ℤ_iff moved.fd moved.fd).1 refl) (ap (λ j. some (watch_of moved j)) e),
          )
      | inr f ↦
          let ne : idx ≢ i = λ e. ground arith in
          let (q, e, w) = m i (omega arith) in
          let apart_r : q.fd ≢ r.fd = λ same.
            ne (sym (mirrored_apart k doc s pool i idx q r m (omega arith) low e here same)) in
          let apart_moved : q.fd ≢ moved.fd = λ same. absurd (
            omega (
              arith,
              mirrored_apart k doc s pool i (pool.used - 1) q moved m (omega arith) (omega arith) e
                  there same,
            )) in
          (
            q,
            get_elem?-set_ne _ idx i moved ne ∙ get_elem?-set_ne pool.reg idx i _ ne ∙ e,
            changed q.fd
                ∙ rw (not_same q.fd moved.fd apart_moved)
                    (deleted q.fd ∙ rw (not_same q.fd r.fd apart_r) w),
          )
    ]

  pub last-Mirrors :
      (s s1 : k.State) (pool : Pool) (idx : ℕ) (r : Reg)
      → Mirrors k doc s pool
      → idx < pool.used
      → get_elem? pool.reg idx ≡ some r
      → pool.used - 1 ≡ idx
      → ((f : ℤ) → watched s1 f ≡ (if eqb_ℤ f r.fd then none else watched s f))
      → (i : ℕ) → i < pool.used - 1
      → (q : Reg) × (get_elem? (set pool.reg idx (record r { fd = negsuc 0 })) i ≡ some q)
        × (watched s1 q.fd ≡ some (watch_of q i))
  last-Mirrors s s1 pool idx r m low here last deleted i below =
      let ne : idx ≢ i = λ e. absurd (omega arith) in
      let (q, e, w) = m i (omega arith) in
      let apart_r : q.fd ≢ r.fd =
        λ same. ne (sym (mirrored_apart k doc s pool i idx q r m (omega arith) low e here same)) in
      (
        q,
        get_elem?-set_ne pool.reg idx i _ ne ∙ e,
        deleted q.fd ∙ rw (not_same q.fd r.fd apart_r) w,
      )
