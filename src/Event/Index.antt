-- ===== src/Event/Index.antt =====
-- What `__event_getindex` finds, and that a registration is found.
use lz_lib.Base.Int.{ℤ, pos, negsuc, eqb_ℤ, eqb_ℤ_iff}
use lz_lib.Base.{
  lt→ltb, take, ℕ, zero, suc, ◌+◌, ◌≤◌, ◌<◌, ◌≡◌, ◌≢◌, refl, ap, ◌∙◌, inl, inr, true, false, Option,
  none, some, List, [], ◌∷◌, ◌++◌, arith, ltb, ◌==◌, if◌then◌else◌, Bool-cases, get_elem?, set,
  replicate, length, length-append, length-replicate, length-set, take, lt→ltb, ltb→lt, subst,
  get_elem?-set_self, ok, ◌>>=◌,
}
use lz_lib.Event.{Pool, Reg, fd_at, scan, getindex, switch_flags}
use lz_lib.Event.Poll.{event_register_poll, no_flags}

-- Between calls: the array has the entries that `count` says, and those in use are among them.
pub record IsValid (pool : Pool) : Type 0 where
  pub sized : length pool.reg ≡ pool.count
  pub within : pool.used ≤ pool.count

-- What an answer means: an entry in use with this descriptor, or that there is none.
abbrev pub Finds : Pool → ℤ → Option ℕ → Type 0
Finds pool fd (some i) = (i < pool.used) × (fd_at pool.reg i ≡ ok fd)
Finds pool fd none = (i : ℕ) → i < pool.used → fd_at pool.reg i ≢ ok fd

fd_at-total : (reg : List Reg) (i : ℕ) → i < length reg → (f : ℤ) × (fd_at reg i ≡ ok f)
unfolding fd_at
fd_at-total [] i h = absurd (omega arith)
fd_at-total (r ∷ reg) zero h = (r.fd, refl)
fd_at-total (r ∷ reg) (suc i) h = fd_at-total reg i (omega arith)

-- What an answer means for the entries from `i` up to `n`.
abbrev Scans : List Reg → ℤ → ℕ → ℕ → Option ℕ → Type 0
Scans reg fd i n (some j) = (j < n) × (fd_at reg j ≡ ok fd)
Scans reg fd i n none = (j : ℕ) → i ≤ j → j < n → fd_at reg j ≢ ok fd

Scans-widen :
    (reg : List Reg) (fd f : ℤ) (i n : ℕ) (o : Option ℕ)
    → fd_at reg i ≡ ok f
    → eqb_ℤ f fd ≡ false
    → Scans reg fd (i + 1) n o
    → Scans reg fd i n o
Scans-widen reg fd f i n (some j) e t m = m
Scans-widen reg fd f i n none e t m = λ j a b q. elim (Bool-cases (j == i)) [
  | inl here ↦
      let at : j ≡ i = ground arith in
      let same : f ≡ fd = cc in absurd (cc ((eqb_ℤ_iff f fd).1 same))
  | inr there ↦ m j (ground arith) b q
]

-- The scan of entries `i` to `i + left`.
scan-Scans :
    (reg : List Reg) (fd : ℤ) (left i n : ℕ)
    → i + left ≡ n
    → n ≤ length reg
    → (o : Option ℕ) × (scan reg fd left i ≡ ok o) × Scans reg fd i n o
unfolding scan
scan-Scans reg fd zero i n e h = (none, refl, λ j a b. absurd (omega arith))
scan-Scans reg fd (suc left) i n e h =
    let (f, at) = fd_at-total reg i (omega arith) in
    elim (Bool-cases (eqb_ℤ f fd)) [
      | inl t ↦ (
        some i,
        rw (at, ◌>>=◌, t) refl,
        (omega arith, subst (λ g. fd_at reg i ≡ ok g) ((eqb_ℤ_iff f fd).0 t) at),
      )
      | inr t ↦
          let (o, run, means) = scan-Scans reg fd left (i + 1) n (omega arith) h in
          (o, rw (at, ◌>>=◌, t) run, Scans-widen reg fd f i n o at t means)
    ]

Scans-Finds :
    (pool : Pool) (fd : ℤ) (o : Option ℕ) → Scans pool.reg fd 0 pool.used o → Finds pool fd o
Scans-Finds pool fd (some j) m = m
Scans-Finds pool fd none m = λ i low. m i (omega arith) low

-- On a valid registry, `__event_getindex` comes to an answer for every descriptor and every hint. It is
-- an entry in use with that descriptor, or -1 if no entry in use has it.
pub getindex-Finds :
    (pool : Pool) (fd hint : ℤ)
    → IsValid pool
    → (o : Option ℕ) × (getindex pool fd hint ≡ ok o) × Finds pool fd o
unfolding getindex
getindex-Finds pool fd hint valid = go hint
  where
    all : (o : Option ℕ) × (scan pool.reg fd pool.used 0 ≡ ok o) × Finds pool fd o
    all =
        let (o, run, means) =
          scan-Scans pool.reg fd pool.used 0 pool.used (omega arith)
            (omega (arith, valid.sized, valid.within)) in
        (o, run, Scans-Finds pool fd o means)

    go : (hint : ℤ) → (o : Option ℕ) × (getindex pool fd hint ≡ ok o) × Finds pool fd o
    go (negsuc k) = all
    go (pos k) = elim (Bool-cases (ltb k pool.used)) [
      | inr f ↦ rw (getindex, f) all
      | inl t ↦
          let low : k < pool.used = ltb→lt k pool.used t in
          let (f, at) = fd_at-total pool.reg k (omega (arith, valid.sized, valid.within, low)) in
          elim (Bool-cases (eqb_ℤ f fd)) [
            | inl hit ↦ (
              some k,
              rw (t, at, ◌>>=◌, hit) refl,
              (low, subst (λ g. fd_at pool.reg k ≡ ok g) ((eqb_ℤ_iff f fd).0 hit) at),
            )
            | inr miss ↦ let (o, run, means) = all in (o, rw (t, at, ◌>>=◌, miss) run, means)
          ]
    ]

take-append : (n : ℕ) (xs ys : List Reg) → n ≤ length xs → take n (xs ++ ys) ≡ take n xs
take-append zero xs ys h = refl
take-append (suc n) [] ys h = absurd (omega arith)
take-append (suc n) (x ∷ xs) ys h = ap (◌∷◌ x) (take-append n xs ys (omega arith))

take-set : (n : ℕ) (xs : List Reg) (v : Reg) → take n (set xs n v) ≡ take n xs
take-set zero [] v = refl
take-set zero (x ∷ xs) v = refl
take-set (suc n) [] v = refl
take-set (suc n) (x ∷ xs) v = ap (◌∷◌ x) (take-set n xs v)

pub get_elem?-some : (xs : List Reg) (i : ℕ) → i < length xs → (r : Reg) × (get_elem? xs i ≡ some r)
get_elem?-some [] i h = absurd (omega arith)
get_elem?-some (x ∷ xs) zero h = (x, refl)
get_elem?-some (x ∷ xs) (suc i) h = get_elem?-some xs i (omega arith)

-- The array behind the growth in `event_register_poll`.
grown : Reg → Pool → List Reg
grown garbage pool = if pool.count == pool.used then pool.reg ++ replicate 256 garbage else pool.reg

grown-length :
    (garbage : Reg) (pool : Pool)
    → IsValid pool
    → (pool.used < length (grown garbage pool))
      × (length (grown garbage pool)
          ≡ (if pool.count == pool.used then pool.count + 256 else pool.count))
unfolding grown
grown-length garbage pool valid =
    let more = length-append pool.reg (replicate 256 garbage) in
    let some_more = length-replicate 256 garbage in
    (
      ground (arith, valid.sized, valid.within, more, some_more),
      ground (arith, valid.sized, more, some_more),
    )

grown-take :
    (garbage : Reg) (pool : Pool)
    → IsValid pool
    → take pool.used (grown garbage pool) ≡ take pool.used pool.reg
unfolding grown
grown-take garbage pool valid = ground (
  arith,
  take-append pool.used pool.reg (replicate 256 garbage) (omega (arith, valid.sized, valid.within)),
)

-- On a valid registry `event_register_poll` returns the number of entries in use as the index, and
-- leaves a valid registry with one more: at the index stands the descriptor with its handler, the
-- urgent bit set, and the other bits as asked for; the entries before it are as they were. From the
-- index as its hint, `__event_getindex` finds the descriptor there.
pub event_register_poll-entry :
    (garbage : Reg) (pool : Pool) (fd : ℤ) (handler payload : ℕ) (poll_in poll_out : ℤ)
    → IsValid pool
    → (pool' : Pool) × (event_register_poll garbage (some pool) fd handler payload poll_in poll_out
        ≡ ok (pos pool.used, some pool'))
      × IsValid pool'
      × (pool'.used ≡ pool.used + 1)
      × (get_elem? pool'.reg pool.used
          ≡ some (record {
            fd = fd;
            events = switch_flags poll_in poll_out no_flags;
            handler = handler;
            payload = payload;
          }))
      × (take pool.used pool'.reg ≡ take pool.used pool.reg)
      × (getindex pool' fd (pos pool.used) ≡ ok (some pool.used))
unfolding event_register_poll getindex fd_at grown
event_register_poll-entry garbage pool fd handler payload poll_in poll_out valid =
    let entry : Reg = record {
      fd = fd;
      events = switch_flags poll_in poll_out no_flags;
      handler = handler;
      payload = payload;
    } in
    let reg = grown garbage pool in
    let (room, size) = grown-length garbage pool valid in
    let (old, there) = get_elem?-some reg pool.used room in
    let stored = get_elem?-set_self reg pool.used entry room in
    (
      record pool {
        count = if pool.count == pool.used then pool.count + 256 else pool.count;
        reg = set reg pool.used entry;
        used = pool.used + 1;
        changed = true;
      },
      rw (event_register_poll, there) refl,
      record {
        sized = length-set reg pool.used entry ∙ size;
        within = ground (arith, valid.within);
      },
      refl,
      stored,
      take-set pool.used reg entry ∙ grown-take garbage pool valid,
      rw (lt→ltb pool.used (pool.used + 1) (omega arith), stored, ◌>>=◌, (eqb_ℤ_iff fd fd).1 refl)
          refl,
    )
