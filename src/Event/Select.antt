-- ===== src/Event/Select.antt =====
-- A change of the bits that `epoll` watches.
use lz_lib.Base.Int.{ℤ, pos, eqb_ℤ_iff}
use lz_lib.Base.{
  ℕ, ◌<◌, ◌≡◌, ◌≢◌, refl, sym, ap, subst, ◌∙◌, inl, inr, true, some, arith, ◌==◌, Bool-cases,
  get_elem?, set, length, get_elem?-set_self, get_elem?-set_ne, ok, ok-injective, ◌>>=◌,
}
use lz_lib.Event.{Pool, Reg, getindex, switch_flags}
use lz_lib.Event.Epoll.{Epoll, Watch, watch_of, event_select_on_epoll}
use lz_lib.Event.Index.{IsValid, Finds, getindex-Finds, get_elem?-some}
use lz_lib.Event.Watched.{Documented, Mirrors, mirrored_apart, fd_at-entry, not_same}

module _ (k : Epoll) (doc : Documented k) where
  open doc use {watched, watched-modify}

  -- On a valid and mirrored registry, if `__event_getindex` finds the descriptor and the kernel accepts
  -- the change, then `event_select_on_epoll` returns 0, the entry has its bits as asked for, and each entry
  -- in use is watched with its bits and its own index.
  pub event_select_on_epoll-Mirrors :
      (s : k.State) (pool : Pool) (fd hint poll_in poll_out : ℤ) (idx : ℕ)
      → IsValid pool
      → Mirrors k doc s pool
      → getindex pool fd hint ≡ ok (some idx)
      → ((w : Watch) → (k.modify s fd w).0 ≡ true)
      → (r : Reg) × (pool' : Pool) × (s' : k.State) × (event_select_on_epoll k s
            (some pool)
            fd
            hint
            poll_in
            poll_out
          ≡ ok (pos 0, some pool', s'))
        × (get_elem? pool.reg idx ≡ some r)
        × (get_elem? pool'.reg idx
            ≡ some (record r { events = switch_flags poll_in poll_out r.events }))
        × Mirrors k doc s' pool'
  unfolding event_select_on_epoll
  event_select_on_epoll-Mirrors s pool fd hint poll_in poll_out idx valid m found accepted =
      let (o, run, finds) = getindex-Finds pool fd hint valid in
      let is = subst (Finds pool fd) (ok-injective (sym run ∙ found)) finds in
      let long : idx < length pool.reg = omega (arith, valid.sized, valid.within, is.0) in
      let (r, here) = get_elem?-some pool.reg idx long in
      let same = fd_at-entry pool.reg idx r fd here is.1 in
      let r' : Reg = record r { events = switch_flags poll_in poll_out r.events } in
      let w : Watch = record { events = r'.events; fd = fd; idx = idx } in
      let w_is : w ≡ watch_of r' idx = ap (λ f. record w { fd = f }) (sym same) in
      let s' = (k.modify s fd w).1 in
      let stored = get_elem?-set_self pool.reg idx r' long in
      let changed = λ (f : ℤ). watched-modify s fd f w (accepted w) in
      (
        r,
        record pool { reg = set pool.reg idx r' },
        s',
        rw (event_select_on_epoll, found, ◌>>=◌, here, accepted w) refl,
        here,
        stored,
        λ i below. elim (Bool-cases (i == idx)) [
          | inl t ↦
              let at : idx ≡ i = ground arith in
              subst
                (λ j.
                  (q : Reg) × (get_elem? (set pool.reg idx r') j ≡ some q)
                  × (watched s' q.fd ≡ some (watch_of q j)))
                at (r', stored, changed r.fd ∙ rw ((eqb_ℤ_iff r.fd fd).1 same) (ap some w_is))
          | inr f ↦
              let other : idx ≢ i = λ e. ground arith in
              let (q, there, was) = m i below in
              let apart : q.fd ≢ fd = λ e.
                other
                  (mirrored_apart k doc s pool idx i r q m is.0 below here there (same ∙ sym e)) in
              (
                q,
                get_elem?-set_ne pool.reg idx i r' other ∙ there,
                changed q.fd ∙ rw (not_same q.fd fd apart) was,
              )
        ],
      )
