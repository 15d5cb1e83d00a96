-- ===== src/Socket/Tests/Receiver.antt =====
-- The memory of a transport that receives from the peer.
use lz_lib.Base.{
  List, [], ◌∷◌, ◌⊎◌, inl, length, inl, ◌⊎◌, ◌∷◌, length, List, ℕ, zero, suc, ◌+◌, ◌<◌, ◌≤◌, ◌≡◌,
  ◌≢◌, refl, ap, some, All, arith,
}
use lz_lib.ListHead.Splice.{NoDup-append}
use lz_lib.Socket.{Iov, Reply, moved, failed, Rwv, socket_rwv}
use lz_lib.Socket.Vec.{addresses, range}
use lz_lib.Socket.Proto.{
  Proto, nada, complete, data_came, Incoming, cleared, socket_proto_state_machine,
}
use lz_lib.Socket.Proto.Whole.{Gives}
use lz_lib.Socket.Proto.Sound.{Serves}
use lz_lib.Socket.Proto.Turns.{NoDup-range}
use lz_lib.Socket.Tests.Remote.{
  pour, put, readv_of, Peer, readv, in_flight, memory, no_interrupts, readv-Step,
}

-- `malloc` and `iobuf_get` give memory far from each other and from the header.
abbrev pub receiver : lz_lib.Socket.Proto.Ops Peer
receiver = record {
  mem = memory;
  readv = readv;
  malloc = λ w n. (200000, w);
  iobuf_get = λ w. some (100, w);
  header_at = 0;
}

All-above : (x a n : ℕ) → a + n ≤ x → All (λ y. x ≢ y) (range a n)
All-above x a zero h = tt
All-above x a (suc n) h = (λ e. omega (arith, e), All-above x (a + 1) n (omega arith))

All-apart : (x a m n : ℕ) → a + n ≤ x → All (λ q. All (λ y. q ≢ y) (range x m)) (range a n)
All-apart x a m zero h = tt
All-apart x a m (suc n) h = (apart_from a x m (omega arith), All-apart x (a + 1) m n (omega arith))
  where
    apart_from : (q x m : ℕ) → q < x → All (λ y. q ≢ y) (range x m)
    apart_from q x zero h = tt
    apart_from q x (suc m) h = (λ e. omega (arith, e), apart_from q (x + 1) m (omega arith))

given_buffer : {b : ℕ} {w w' : Peer} → receiver.iobuf_get w ≡ some (b, w') → b ≡ 100
given_buffer e = cc e

given_world : {b : ℕ} {w w' : Peer} → receiver.iobuf_get w ≡ some (b, w') → w' ≡ w
given_world e = cc e

pub receiver-Serves : Serves receiver in_flight no_interrupts
receiver-Serves = record {
  readv = readv-Step;
  malloc = λ w n. (refl, omega arith, refl);
  iobuf_get = λ w w' n b m e small.
      let at = given_buffer e in
      (
        ap in_flight (given_world e),
        omega arith,
        rw at (
            NoDup-append (range 200000 n) (range 100 m) (NoDup-range 200000 n) (NoDup-range 100 m)
              (All-apart 200000 100 n m (omega arith))),
      );
}

poured_some :
    (bs : List ℕ) (xs : List ℕ) (m : ℕ → ℕ)
    → 0 < length bs
    → 0 < length xs
    → (n : ℕ) × ((pour 5 bs xs m).number ≡ suc n)
poured_some [] xs m h k = absurd (omega arith)
poured_some (a ∷ bs) [] m h k = absurd (omega arith)
poured_some (a ∷ bs) (x ∷ xs) m h k = ((pour 4 bs xs (put m a x)).number, refl)

readv_gives :
    (xs : List ℕ) (w : Peer) (vec : List Iov)
    → w.flight ≡ xs
    → 0 < length (addresses vec)
    → length (addresses vec) ≤ length xs
    → ((n : ℕ) × ((readv_of xs w vec).0 ≡ moved (suc n))) ⊎ ((readv_of xs w vec).0 ≡ failed 4)
readv_gives [] w vec e h k = absurd (omega arith)
readv_gives (x ∷ xs) w vec e h k =
    let (n, s) = poured_some (addresses vec) w.flight w.memory h (omega (arith, ap length e)) in
    inl (n, ap moved s)

pub receiver-Gives : Gives receiver in_flight no_interrupts
receiver-Gives = record {
  readv = λ w vec h k. readv_gives w.flight w vec refl h k;
  iobuf_get = λ w n. (100, w, refl);
}
