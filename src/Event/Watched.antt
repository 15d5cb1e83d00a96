-- ===== src/Event/Watched.antt =====
-- What the kernel watches, and when this mirrors the registry of src/event.c.
use lz_lib.Base.Int.{ℤ, eqb_ℤ, eqb_ℤ_iff}
use lz_lib.Base.{
  ℕ, ◌<◌, ◌≡◌, ◌≢◌, sym, ap, subst, ◌∙◌, true, false, Option, none, some, List, arith,
  if◌then◌else◌, get_elem?, ok,
}
use lz_lib.Event.{Pool, Reg, fd_at}
use lz_lib.Event.Epoll.{Epoll, Watch, watch_of}

-- What epoll_ctl(2) documents of a call that succeeds: it changes what is watched for its descriptor,
-- and nothing else.
pub record Documented (k : Epoll) : Type 0 where
  pub watched : k.State → ℤ → Option Watch
  pub watched-add :
      (s : k.State) (fd f : ℤ) (w : Watch)
      → (k.add s fd w).0 ≡ true
      → watched (k.add s fd w).1 f ≡ (if eqb_ℤ f fd then some w else watched s f)
  pub watched-modify :
      (s : k.State) (fd f : ℤ) (w : Watch)
      → (k.modify s fd w).0 ≡ true
      → watched (k.modify s fd w).1 f ≡ (if eqb_ℤ f fd then some w else watched s f)
  pub watched-delete :
      (s : k.State) (fd f : ℤ)
      → (k.delete s fd).0 ≡ true
      → watched (k.delete s fd).1 f ≡ (if eqb_ℤ f fd then none else watched s f)

pub fd_at-entry :
    (reg : List Reg) (i : ℕ) (r : Reg) (fd : ℤ)
    → get_elem? reg i ≡ some r
    → fd_at reg i ≡ ok fd
    → r.fd ≡ fd
unfolding fd_at
fd_at-entry reg i r fd e at = ground arith

pub not_same : (a b : ℤ) → a ≢ b → eqb_ℤ a b ≡ false
not_same a b h = ground (arith, eqb_ℤ_iff a b)

module _ (k : Epoll) (doc : Documented k) where
  open doc use {watched}

  -- Each entry in use is watched, with its bits and its own index.
  abbrev pub Mirrors : k.State → Pool → Type 0
  Mirrors s pool =
      (i : ℕ)
      → i < pool.used
      → (r : Reg) × (get_elem? pool.reg i ≡ some r) × (watched s r.fd ≡ some (watch_of r i))

  index : Option Watch → ℕ
  index none = 0
  index (some w) = w.idx

  -- An entry in use, where it is known, is watched.
  pub mirrored_at :
      (s : k.State) (pool : Pool) (i : ℕ) (r : Reg)
      → Mirrors s pool
      → i < pool.used
      → get_elem? pool.reg i ≡ some r
      → watched s r.fd ≡ some (watch_of r i)
  mirrored_at s pool i r m low e =
      let (r', e', w) = m i low in
      let same : r' ≡ r = cc in subst (λ x. watched s x.fd ≡ some (watch_of x i)) same w

  -- No two entries in use have one descriptor.
  pub mirrored_apart :
      (s : k.State) (pool : Pool) (i j : ℕ) (r q : Reg)
      → Mirrors s pool
      → i < pool.used
      → j < pool.used
      → get_elem? pool.reg i ≡ some r
      → get_elem? pool.reg j ≡ some q
      → r.fd ≡ q.fd
      → i ≡ j
  unfolding index
  mirrored_apart s pool i j r q m a b e f same =
      let first = mirrored_at s pool i r m a e in
      let second = mirrored_at s pool j q m b f in
      ap index (sym first ∙ ap (watched s) same ∙ second)
