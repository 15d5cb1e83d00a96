-- ===== src/Event.antt =====
-- The event registry of src/event.c and src/event.h: file descriptors with their handlers in an array,
-- watched by `poll` (Event/Poll) or by `epoll` (Event/Epoll).
--
-- Here is what both share: the array, `__event_getindex`, and the flags. Each function holds the
-- registry's mutex for all that it does, and is one step. A handler and its argument are names.
pub mod Poll
pub mod Epoll
pub mod Index
pub mod Watched
pub mod Removal
pub mod Mirror
pub mod Register
pub mod Select
mod Tests
use lz_lib.Base.Int.{ℤ, pos, negsuc, eqb_ℤ}
use lz_lib.Base.{
  ℕ, zero, suc, ◌+◌, Bool, true, false, ◌&&◌, ◌||◌, Option, none, some, List, [], ◌∷◌, ltb, ◌==◌,
  if◌then◌else◌, get_elem?, Run, ok, fault, bad_access, ◌>>=◌,
}

-- The bits of `events` that the code ever sets: `POLLPRI`, `POLLIN` and `POLLOUT`, and those of epoll.
pub record Flags : Type 0 where
  pub pri : Bool
  pub inward : Bool
  pub outward : Bool

-- An entry of `event_pool->reg`.
pub record Reg : Type 0 where
  pub fd : ℤ
  pub events : Flags
  pub handler : ℕ
  pub payload : ℕ

-- `struct event_pool`; `fd` is the epoll descriptor. `reg` holds `count` entries, `used` of them in use;
-- the two, each an `int`, are numbers here: the registry has less than 2 ^ 31 entries.
pub record Pool : Type 0 where
  pub fd : ℤ
  pub count : ℕ
  pub reg : List Reg
  pub used : ℕ
  pub changed : Bool
  pub evcache : List Reg
  pub evcache_size : ℕ

-- The `switch` on `poll_in` or `poll_out`: 1 sets the bit, 0 clears it, -1 and any other leave it.
pub switch_bit : ℤ → Bool → Bool
switch_bit how bit = if eqb_ℤ how (pos 1) then true else (if eqb_ℤ how (pos 0) then false else bit)

pub switch_flags : ℤ → ℤ → Flags → Flags
unfolding switch_bit
switch_flags poll_in poll_out e = record e {
  inward = switch_bit poll_in e.inward;
  outward = switch_bit poll_out e.outward;
}

-- `event_pool->reg[i].fd`
unfoldable pub fd_at : List Reg → ℕ → Run ℤ
fd_at reg i = elim (get_elem? reg i) [ none ↦ fault bad_access | some r ↦ ok r.fd ]

-- The loop of `__event_getindex`, with `left` entries left from `i`.
pub scan : List Reg → ℤ → ℕ → ℕ → Run (Option ℕ)
unfolding fd_at
scan reg fd zero i = ok none
scan reg fd (suc left) i =
    fd_at reg i >>= λ f. elim (eqb_ℤ f fd) [ true ↦ ok (some i) | false ↦ scan reg fd left (i + 1) ]

-- `__event_getindex`: the index of `fd`, tried first at the hint; none is -1.
pub getindex : Pool → ℤ → ℤ → Run (Option ℕ)
unfolding scan fd_at
getindex pool fd (negsuc hint) = scan pool.reg fd pool.used 0
getindex pool fd (pos hint) =
    if ltb hint pool.used
    then (fd_at pool.reg hint >>= λ f.
        if eqb_ℤ f fd then ok (some hint) else scan pool.reg fd pool.used 0)
    else scan pool.reg fd pool.used 0
