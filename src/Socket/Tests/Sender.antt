-- ===== src/Socket/Tests/Sender.antt =====
-- The memory and the queue of a transport that sends to the peer.
use lz_lib.Base.{
  ℕ, suc, ◌<◌, ◌≡◌, ◌⊎◌, inl, refl, ap, none, some, List, [], ◌∷◌, ◌++◌, All, length, take, arith,
}
use lz_lib.Base.Int.{pos}
use lz_lib.ListHead.Seg.{NoDup}
use lz_lib.Socket.{Iov, Reply, moved, failed, Rwv, socket_rwv}
use lz_lib.Socket.Vec.{range, addresses}
use lz_lib.Socket.Queue.{Entry, message_header, socket_ioq_churn, iov_length, socket_submit}
use lz_lib.Socket.Queue.Write.{Sends, Separate}
use lz_lib.Socket.Queue.Submit.{Allocates, Fresh, Apart, places}
use lz_lib.Socket.Tests.Remote.{
  put_all_frame, put_all_there, Peer, put, put_all, put_other, memory, sent, no_interrupts, writev,
  writev-Step,
}

-- The allocator gives one block of twelve bytes; to free a block clears its first byte.
abbrev pub sender : lz_lib.Socket.Queue.Ops Peer
sender = record {
  mem = memory;
  store = λ w a bytes. record w { memory = put_all w.memory a bytes };
  calloc = λ w. some (300, w);
  free = λ w p. record w { memory = put w.memory p 0 };
  iobref_ref = λ w b. w;
  iobref_unref = λ w b. w;
  writev = writev;
  select_out = λ w on. w;
}

abbrev pub block : ℕ → List ℕ
block p = range p 12

pub sender-Sends : Sends sender sent no_interrupts block
sender-Sends = record {
  writev = writev-Step;
  free = λ w p. (refl, omega arith, λ a h. put_other w.memory p 0 a h.0);
  iobref_unref = λ w b. (refl, omega arith, λ a. refl);
  select_out = λ w on. (refl, λ a. refl);
}

-- An entry of which a part is sent, and one behind it.
abbrev pub two_entries : List Entry
two_entries =
    record {
      id = 500;
      count = 2;
      pending_vector = record { base = 508; len = 3 } ∷ (record { base = 601; len = 4 } ∷ []);
      pending_count = pos 2;
      buf = 600;
      iobref = some 40;
    }
    ∷ (record {
      id = 800;
      count = 1;
      pending_vector = record { base = 800; len = 6 } ∷ [];
      pending_count = pos 1;
      buf = 900;
      iobref = none;
    }
        ∷ [])

abbrev pub two_waiting : Peer
two_waiting = record { flight = []; memory = λ a. a; sent = 1 ∷ [] }

pub two_entries-Separate : Separate sender sent no_interrupts block two_entries
two_entries-Separate = ground arith

pub writev_takes :
    (w : Peer) (vec : List Iov)
    → 0 < length (addresses vec)
    → ((n : ℕ) × ((writev w vec).0 ≡ moved (suc n))) ⊎ ((writev w vec).0 ≡ failed 4)
writev_takes w vec h = go (addresses vec) h
  where
    go :
        (xs : List ℕ)
        → 0 < length xs
        → ((n : ℕ) × (moved (length (take 5 xs)) ≡ moved (suc n)))
          ⊎ (moved (length (take 5 xs)) ≡ failed 4)
    go [] h = absurd (omega arith)
    go (x ∷ xs) h = inl (length (take 4 xs), refl)

given_block : {e : ℕ} {w w1 : Peer} → sender.calloc w ≡ some (e, w1) → e ≡ 300
given_block e = cc e

given_rest : {e : ℕ} {w w1 : Peer} → sender.calloc w ≡ some (e, w1) → w1 ≡ w
given_rest e = cc e

pub sender-Allocates : Allocates sender sent no_interrupts block
sender-Allocates = record {
  calloc = λ w w1 e got.
      let at = given_block got in
      let same = given_rest got in (ap sent same, omega arith, λ a h. (rw same refl, h));
  store = λ w e bs.
      (refl, omega arith, put_all_there w.memory e bs, λ a h. put_all_frame w.memory e bs a h);
  iobref_ref = λ w b. (refl, omega arith, λ a. refl);
}

abbrev pub data_blocks : List Iov
data_blocks = record { base = 450; len = 2 } ∷ []

block_at :
    NoDup (range 300 12 ++ places sender sent no_interrupts block 400 3 data_blocks)
    × All
        (Apart sender sent no_interrupts block 300)
        (places sender sent no_interrupts block 400 3 data_blocks)
block_at = ground arith

pub data_blocks-Fresh : Fresh sender sent no_interrupts block two_waiting [] 400 3 data_blocks
data_blocks-Fresh e w1 got = let at = given_block got in rw at (block_at.0, block_at.1, tt)
