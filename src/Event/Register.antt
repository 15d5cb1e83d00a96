-- ===== src/Event/Register.antt =====
-- A registration with `epoll`: the array grows by its own length, and the kernel is told.
use lz_lib.Base.Int.{ℤ, pos, eqb_ℤ_iff}
use lz_lib.Base.{
  lt→ltb, ℕ, zero, suc, ◌+◌, ◌*◌, ◌<◌, ◌≡◌, ◌≢◌, refl, ap, subst, ◌∙◌, inl, inr, true, some, List,
  [], ◌∷◌, ◌++◌, arith, ◌==◌, if◌then◌else◌, Bool-cases, get_elem?, set, replicate, length,
  length-append, length-replicate, length-set, get_elem?-set_self, get_elem?-set_ne, ok, ◌>>=◌,
}
use lz_lib.Event.{Pool, Reg, fd_at, getindex, switch_flags}
use lz_lib.Event.Poll.{no_flags}
use lz_lib.Event.Epoll.{Epoll, watch_of, status, event_register_epoll}
use lz_lib.Event.Index.{IsValid, get_elem?-some}
use lz_lib.Event.Watched.{not_same, Documented, Mirrors}

-- The array behind the growth in `event_register_epoll`.
doubled : Reg → Pool → List Reg
doubled garbage pool =
    if pool.count == pool.used then pool.reg ++ replicate pool.count garbage else pool.reg

doubled-length :
    (garbage : Reg) (pool : Pool)
    → IsValid pool
    → 0 < pool.count
    → (pool.used < length (doubled garbage pool))
      × (length (doubled garbage pool)
          ≡ (if pool.count == pool.used then pool.count * 2 else pool.count))
unfolding doubled
doubled-length garbage pool valid room =
    let more = length-append pool.reg (replicate pool.count garbage) in
    let some_more = length-replicate pool.count garbage in
    (
      ground (arith, valid.sized, valid.within, more, some_more),
      ground (arith, valid.sized, more, some_more),
    )

get_elem?-append :
    (xs ys : List Reg) (i : ℕ) → i < length xs → get_elem? (xs ++ ys) i ≡ get_elem? xs i
get_elem?-append [] ys i low = absurd (omega arith)
get_elem?-append (x ∷ xs) ys zero low = refl
get_elem?-append (x ∷ xs) ys (suc i) low = get_elem?-append xs ys i (omega arith)

doubled-same :
    (garbage : Reg) (pool : Pool) (i : ℕ)
    → IsValid pool
    → i < pool.used
    → get_elem? (doubled garbage pool) i ≡ get_elem? pool.reg i
unfolding doubled
doubled-same garbage pool i valid low = elim (Bool-cases (pool.count == pool.used)) [
  | inl t ↦ rw t (
      get_elem?-append pool.reg (replicate pool.count garbage) i
        (omega (arith, valid.sized, valid.within)))
  | inr f ↦ rw f refl
]

-- The entry that `event_register_epoll` writes.
abbrev pub new_entry : ℤ → ℕ → ℕ → ℤ → ℤ → Reg
new_entry fd handler payload poll_in poll_out = record {
  fd = fd;
  events = switch_flags poll_in poll_out no_flags;
  handler = handler;
  payload = payload;
}

-- The registry behind it, whatever the kernel answers.
registered : Reg → Pool → Reg → Pool
unfolding doubled
registered garbage pool entry = record pool {
  count = if pool.count == pool.used then pool.count * 2 else pool.count;
  reg = set (doubled garbage pool) pool.used entry;
  used = pool.used + 1;
  changed = true;
}

module _ (k : Epoll) where
  register-registered :
      (garbage : Reg) (s : k.State) (pool : Pool) (fd : ℤ) (handler payload : ℕ)
      (poll_in poll_out : ℤ)
      → IsValid pool
      → 0 < pool.count
      → let e = new_entry fd handler payload poll_in poll_out in
        let added = k.add s fd (watch_of e pool.used) in
        event_register_epoll k true garbage s (some pool) fd handler payload poll_in poll_out
        ≡ ok (status added.0, some (registered garbage pool e), added.1)
  unfolding event_register_epoll registered
  register-registered garbage s pool fd handler payload poll_in poll_out valid room =
      let (old, there) =
        get_elem?-some (doubled garbage pool) pool.used
          (doubled-length garbage pool valid room).0 in
      elim (Bool-cases (pool.count == pool.used)) [
        | inl t ↦ rw (event_register_epoll, there, t) refl
        | inr f ↦ rw (event_register_epoll, there, f) refl
      ]

  -- On a valid registry with room for at least one entry, and with memory to grow, `event_register_epoll`
  -- returns 0 or -1 as `epoll_ctl` does. Either way it leaves a valid registry with one entry more, in
  -- which `__event_getindex` finds the descriptor at the new index, also when -1 is returned.
  pub event_register_epoll-entry :
      (garbage : Reg) (s : k.State) (pool : Pool) (fd : ℤ) (handler payload : ℕ)
      (poll_in poll_out : ℤ)
      → IsValid pool
      → 0 < pool.count
      → let e = new_entry fd handler payload poll_in poll_out in
        let added = k.add s fd (watch_of e pool.used) in
        (pool' : Pool) × (event_register_epoll k true garbage s
            (some pool)
            fd
            handler
            payload
            poll_in
            poll_out
          ≡ ok (status added.0, some pool', added.1))
        × IsValid pool'
        × (pool'.used ≡ pool.used + 1)
        × (get_elem? pool'.reg pool.used ≡ some e)
        × (getindex pool' fd (pos pool.used) ≡ ok (some pool.used))
  unfolding registered getindex fd_at
  event_register_epoll-entry garbage s pool fd handler payload poll_in poll_out valid room =
      let e = new_entry fd handler payload poll_in poll_out in
      let (low, size) = doubled-length garbage pool valid room in
      let stored = get_elem?-set_self (doubled garbage pool) pool.used e low in
      (
        registered garbage pool e,
        register-registered garbage s pool fd handler payload poll_in poll_out valid room,
        record {
          sized = length-set (doubled garbage pool) pool.used e ∙ size;
          within = ground (arith, valid.within, room);
        },
        refl,
        stored,
        rw (lt→ltb pool.used (pool.used + 1) (omega arith), stored, ◌>>=◌, (eqb_ℤ_iff fd fd).1 refl)
            refl,
      )

  module _ (doc : Documented k) where
    open doc use {watched, watched-add}

    -- On a valid and mirrored registry with room for at least one entry, with memory to grow, and with no
    -- entry in use for the descriptor, `event_register_epoll` that the kernel accepts returns 0, and each
    -- entry in use, the new one too, is watched with its bits and its own index.
    pub event_register_epoll-Mirrors :
        (garbage : Reg) (s : k.State) (pool : Pool) (fd : ℤ) (handler payload : ℕ)
        (poll_in poll_out : ℤ)
        → IsValid pool
        → 0 < pool.count
        → Mirrors k doc s pool
        → ((i : ℕ) (r : Reg) → i < pool.used → get_elem? pool.reg i ≡ some r → r.fd ≢ fd)
        → (k.add s fd (watch_of (new_entry fd handler payload poll_in poll_out) pool.used)).0 ≡ true
        → (pool' : Pool) × (s' : k.State) × (event_register_epoll k true garbage s
              (some pool)
              fd
              handler
              payload
              poll_in
              poll_out
            ≡ ok (pos 0, some pool', s'))
          × (pool'.used ≡ pool.used + 1)
          × Mirrors k doc s' pool'
    unfolding registered
    event_register_epoll-Mirrors garbage s pool fd handler payload poll_in poll_out valid room m
          fresh accepted =
        let e = new_entry fd handler payload poll_in poll_out in
        let added = k.add s fd (watch_of e pool.used) in
        let low = (doubled-length garbage pool valid room).0 in
        let run =
          register-registered garbage s pool fd handler payload poll_in poll_out valid room in
        (
          registered garbage pool e,
          added.1,
          run ∙ ap (λ b. ok (status b, some (registered garbage pool e), added.1)) accepted,
          refl,
          λ i below. elim (Bool-cases (i == pool.used)) [
            | inl t ↦
                let here : pool.used ≡ i = ground arith in
                subst
                  (λ j.
                    (r : Reg) × (get_elem? (registered garbage pool e).reg j ≡ some r)
                    × (watched added.1 r.fd ≡ some (watch_of r j)))
                  here
                  (
                    e,
                    get_elem?-set_self (doubled garbage pool) pool.used e low,
                    watched-add s fd fd (watch_of e pool.used) accepted
                        ∙ rw ((eqb_ℤ_iff fd fd).1 refl) refl,
                  )
            | inr f ↦
                let under : i < pool.used = ground arith in
                let other : pool.used ≢ i = λ same. ground arith in
                let (r, there, w) = m i under in
                (
                  r,
                  get_elem?-set_ne (doubled garbage pool) pool.used i e other
                      ∙ doubled-same garbage pool i valid under
                      ∙ there,
                  watched-add s fd r.fd (watch_of e pool.used) accepted
                      ∙ rw (not_same r.fd fd (fresh i r under there)) w,
                )
          ],
        )
