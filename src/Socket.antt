-- ===== src/Socket.antt =====
-- The socket transport of src/socket.h and src/socket.c.
--
-- `World` is what lies outside the transport: the kernel's side of the connection and the memory. `readv`
-- and `writev` are steps of the world and take the blocks of memory that they fill or send. A `struct iovec` is the
-- address of its first byte and a number of bytes.
pub mod Vec
pub mod Transfer
pub mod Streams
pub mod Proto
pub mod Queue
pub mod Handler
mod Tests
use lz_lib.Base.{
  ℕ, zero, suc, ◌+◌, ◌-◌, Bool, true, false, List, [], ◌∷◌, length, leb, ◌==◌, if◌then◌else◌, Run,
  ok, fault, bad_access, out_of_fuel, ◌>>=◌,
}
use lz_lib.Base.Int.{ℤ, pos, negsuc}

-- `struct iovec`
pub record Iov : Type 0 where
  pub base : ℕ
  pub len : ℕ

-- What `readv` or `writev` returns: a number of bytes, or -1 with an `errno`.
pub data Reply : Type 0 where
  moved : ℕ → Reply
  failed : ℕ → Reply

abbrev pub eintr : ℕ
eintr = 4

abbrev pub eagain : ℕ
eagain = 11

abbrev pub einval : ℕ
einval = 22

abbrev pub enotconn : ℕ
enotconn = 107

-- `while (opcount && !opvector[0].iov_len)`
unfoldable pub skip_empty : List Iov → List Iov
skip_empty [] = []
skip_empty (v ∷ vs) = let rest = skip_empty vs in if v.len == 0 then rest else v ∷ vs

-- `while (moved < ret)`, with n = ret - moved bytes left; behind the last block the loop would read outside of the vector.
-- Blocks without bytes are skipped behind each step; where bytes are left, the next step skips them.
unfoldable pub advance : ℕ → List Iov → Run (List Iov)
unfolding skip_empty
advance n [] = if n == 0 then ok [] else fault bad_access
advance n (v ∷ vs) =
    let rest = advance (n - v.len) vs in
    if n == 0
    then ok (v ∷ vs)
    else (if leb v.len n
        then (if n == v.len then ok (skip_empty vs) else rest)
        else ok (record { base = v.base + n; len = v.len - n } ∷ vs))

-- What `__socket_rwv` leaves: its return value, which is also `*pending_count`, `*pending_vector` and `errno`.
pub record Rwv (World : Type 0) : Type 0 where
  pub ret : ℤ
  pub pending : List Iov
  pub errno : ℕ
  pub world : World

module _ {World : Type 0} (call : World → List Iov → Reply × World) where
  unfoldable pub broken : ℕ → List Iov → World → Rwv World
  broken errno vec w = record { ret = negsuc 0; pending = vec; errno = errno; world = w }

  unfoldable pub paused : ℕ → List Iov → World → Rwv World
  paused errno vec w = record { ret = pos (length vec); pending = vec; errno = errno; world = w }

  -- A round of `__socket_rwv` behind the system call, and the rounds behind it.
  unfoldable pub after_call :
      (List Iov → World → Run (Rwv World)) → Bool → List Iov → Reply → World → Run (Rwv World)
  unfolding broken paused advance
  after_call rounds write vec (moved zero) w =
      if write then ok (paused 0 vec w) else ok (broken enotconn vec w)
  after_call rounds write vec (moved (suc n)) w = advance (suc n) vec >>= λ vec'. rounds vec' w
  after_call rounds write vec (failed e) w =
      let again = rounds vec w in
      if e == eagain
      then ok (paused e vec w)
      else (if e == eintr then again else ok (broken e vec w))

  -- `__socket_rwv`, on `opcount` blocks
  unfoldable pub socket_rwv : ℕ → Bool → List Iov → World → Run (Rwv World)
  unfolding after_call paused
  socket_rwv zero write vec w = fault out_of_fuel
  socket_rwv (suc fuel) write [] w = ok (paused 0 [] w)
  socket_rwv (suc fuel) write (v ∷ vs) w =
      after_call (socket_rwv fuel write) write (v ∷ vs) (call w (v ∷ vs)).0 (call w (v ∷ vs)).1
