-- ===== src/Socket/Tests.antt =====
-- The transport on concrete connections.
mod Remote
mod Receiver
mod Sender
use lz_lib.Base.{
  u32, ℕ, zero, suc, ◌+◌, ◌<◌, ◌≤◌, ◌≡◌, ◌≢◌, ◌⊎◌, inl, inr, refl, sym, ap, ◌∙◌, Bool, true, false,
  Option, none, some, List, [], ◌∷◌, ◌++◌, All, map, length, take, drop, ◌==◌, if◌then◌else◌, Run,
  ok, arith, Bool-cases,
}
use lz_lib.Base.Int.{ℤ, pos, negsuc}
use lz_lib.ListHead.Seg.{NoDup}
use lz_lib.ListHead.Splice.{NoDup-append}
use lz_lib.Socket.{Iov, Reply, moved, failed, Rwv, socket_rwv}
use lz_lib.Socket.Vec.{range, addresses}
use lz_lib.Socket.Transfer.{Step, Transfers, Ends, socket_rwv-Ends}
use lz_lib.Socket.Streams.{Reads, Writes}
use lz_lib.Socket.Proto.{
  Proto, nada, complete, data_came, Incoming, cleared, socket_proto_state_machine,
}
use lz_lib.Socket.Proto.Sound.{Serves, stored}
use lz_lib.Socket.Proto.Turns.{NoDup-range}
use lz_lib.Socket.Proto.Arrive.{Arrived, OnTheWay, socket_proto_state_machine-Arrived}
use lz_lib.Socket.Queue.{Entry, message_header, socket_ioq_churn, iov_length, socket_submit}
use lz_lib.Socket.Queue.Order.{Churned, socket_ioq_churn-Churned}
use lz_lib.Socket.Queue.Write.{Sends, Separate, queued}
use lz_lib.Socket.Queue.Submit.{Allocates, Fresh, Apart, places, Submitted, socket_submit-Submitted}
use lz_lib.Socket.Queue.Drain.{socket_ioq_churn-drained}
use lz_lib.Socket.Handler.{Private, socket_event_handler, socket_receive}
use lz_lib.Socket.Handler.Receive.{socket_receive-OnTheWay}
use lz_lib.Socket.Handler.Release.{
  Effect, Logs, freed, iobref_unreffed, iobuf_unreffed, unregistered, closed, transport_unreffed,
}
use lz_lib.Socket.Handler.Ready.{Closed, socket_event_handler-Closed}
use lz_lib.Socket.Tests.Remote.{
  put_all_frame, put_all_there, Peer, put, put_all, put_other, readv, in_flight, memory, sent,
  no_interrupts, writev, readv-Step, writev-Step, reads,
}
use lz_lib.Socket.Tests.Receiver.{receiver, receiver-Serves, receiver-Gives}
use lz_lib.Socket.Proto.Whole.{socket_proto_state_machine-complete}
use lz_lib.Socket.Tests.Sender.{
  sender, block, sender-Sends, two_entries, two_waiting, two_entries-Separate, writev_takes,
  sender-Allocates, data_blocks, data_blocks-Fresh,
}

-- Seven bytes into blocks of three, none and four bytes.
abbrev three_blocks : List Iov
three_blocks =
    record { base = 40; len = 3 }
    ∷ (record { base = 90; len = 0 } ∷ (record { base = 60; len = 4 } ∷ []))

abbrev seven_bytes : Peer
seven_bytes = record {
  flight = 1 ∷ (2 ∷ (3 ∷ (4 ∷ (5 ∷ (6 ∷ (7 ∷ []))))));
  memory = λ a. 0;
  sent = [];
}

three_blocks-NoDup : NoDup (addresses three_blocks)
three_blocks-NoDup = ground arith

socket_rwv-Ends_example :
    (r : Rwv Peer) × (socket_rwv readv 8 false three_blocks seven_bytes ≡ ok r)
    × Ends (Reads memory in_flight) no_interrupts three_blocks seven_bytes r
socket_rwv-Ends_example =
    socket_rwv-Ends (Reads memory in_flight) no_interrupts readv reads 8 false three_blocks
      seven_bytes three_blocks-NoDup (omega arith)

abbrev whole : lz_lib.Socket.Handler.Ops Peer
whole = record {
  queue = sender;
  proto = receiver;
  shutdown = λ w s. (pos 0, w);
  close = λ w s. w;
  so_error = λ w s. none;
  getsockname = λ w s. true;
  event_unregister = λ w s i. w;
  iobuf_unref = λ w b. w;
  transport_unref = λ w. w;
  selected = λ w. pos 2;
}

-- Three bytes of header data, two of payload, and a byte of what follows.
abbrev header_data : List ℕ
header_data = 7 ∷ (8 ∷ (9 ∷ []))

abbrev payload : List ℕ
payload = 5 ∷ (6 ∷ [])

abbrev behind : List ℕ
behind = 99 ∷ []

abbrev message_sent : Peer
message_sent = record {
  flight = message_header true 3 2 ++ (header_data ++ (payload ++ behind));
  memory = λ a. 0;
  sent = [];
}

abbrev connected_private : Incoming → List Entry → Private
connected_private i q = record { sock = pos 6; idx = pos 2; connected = 1; incoming = i; ioq = q }

socket_proto_state_machine-Arrived_example :
    (ret : ℤ) × (i' : Incoming) × (w' : Peer) × (socket_proto_state_machine receiver false 20
        cleared message_sent
      ≡ ok (ret, i', w'))
    × (((ret ≡ pos 0)
          × (i'.state ≡ complete)
          × Arrived receiver in_flight no_interrupts header_data payload behind i' w')
        ⊎ ((ret ≢ pos 0)
            × (i'.state ≢ complete)
            × OnTheWay receiver in_flight no_interrupts true header_data payload behind i' w'))
    × (no_interrupts w' ≤ no_interrupts message_sent)
socket_proto_state_machine-Arrived_example =
    socket_proto_state_machine-Arrived receiver in_flight no_interrupts true false header_data
      payload behind 20 cleared message_sent receiver-Serves (omega arith) (omega arith)
      (omega arith) (omega arith) (λ e. cc e) (λ e. cc e) (refl, refl)

socket_proto_state_machine-complete_example :
    (i' : Incoming) × (w' : Peer) × (socket_proto_state_machine receiver false 20 cleared
        message_sent
      ≡ ok (pos 0, i', w'))
    × (i'.state ≡ complete)
    × Arrived receiver in_flight no_interrupts header_data payload behind i' w'
socket_proto_state_machine-complete_example =
    socket_proto_state_machine-complete receiver in_flight no_interrupts receiver-Serves
      receiver-Gives true false header_data payload behind 20 cleared message_sent (omega arith)
      (omega arith) (omega arith) (omega arith) refl (refl, refl)

-- A message that has come in, with the start of the next one behind it.
abbrev came_in : Incoming
came_in = record {
  state = complete;
  hdr_p = 200000;
  hdrlen = 3;
  iobuf = some 100;
  buf_p = 100;
  buflen = 2;
  count = 2;
  pending_vector = [];
  pending_count = pos 0;
}

abbrev message_in_memory : Peer
message_in_memory = record {
  flight = message_header true 2 3 ++ (payload ++ (header_data ++ []));
  memory = put (put (put (put (put (λ a. 0) 200000 7) 200001 8) 200002 9) 100 5) 101 6;
  sent = [];
}

-- A world that is the log of what was given back.
abbrev logged_queue : lz_lib.Socket.Queue.Ops (List Effect)
logged_queue = record {
  mem = λ w a. 0;
  store = λ w a bytes. w;
  calloc = λ w. none;
  free = λ w p. w ++ freed p ∷ [];
  iobref_ref = λ w b. w;
  iobref_unref = λ w b. w ++ iobref_unreffed b ∷ [];
  writev = λ w v. (failed 32, w);
  select_out = λ w on. w;
}

abbrev logged_proto : lz_lib.Socket.Proto.Ops (List Effect)
logged_proto = record {
  mem = λ w a. 0;
  readv = λ w v. (failed 104, w);
  malloc = λ w n. (0, w);
  iobuf_get = λ w. none;
  header_at = 0;
}

abbrev logged : lz_lib.Socket.Handler.Ops (List Effect)
logged = record {
  queue = logged_queue;
  proto = logged_proto;
  shutdown = λ w s. (pos 0, w);
  close = λ w s. w ++ closed s ∷ [];
  so_error = λ w s. none;
  getsockname = λ w s. true;
  event_unregister = λ w s i. w ++ unregistered s i ∷ [];
  iobuf_unref = λ w b. w ++ iobuf_unreffed b ∷ [];
  transport_unref = λ w. w ++ transport_unreffed ∷ [];
  selected = λ w. pos 2;
}

logged-Logs : Logs logged (λ w. w)
logged-Logs = record {
  free = λ w p. refl;
  iobref_unref = λ w b. refl;
  iobuf_unref = λ w b. refl;
  event_unregister = λ w fd idx. refl;
  close = λ w fd. refl;
  transport_unref = λ w. refl;
}

socket_event_handler-Closed_example :
    (p' : Private) × (w' : List Effect) × (socket_event_handler logged false 20
        (pos 2)
        true
        false
        false
        (connected_private came_in two_entries)
        []
      ≡ ok (p', w'))
    × Closed p'
    × (w'
        ≡ iobref_unreffed 40
          ∷ freed 600
          ∷ freed 500
          ∷ freed 900
          ∷ freed 800
          ∷ freed 200000
          ∷ iobuf_unreffed 100
          ∷ unregistered (pos 6) (pos 2)
          ∷ closed (pos 6)
          ∷ transport_unreffed
          ∷ [])
socket_event_handler-Closed_example =
    socket_event_handler-Closed logged false 20 (λ w. w) (pos 2)
      (connected_private came_in two_entries) [] logged-Logs refl refl

socket_receive-OnTheWay_example :
    (hdr : ℕ) × (b : ℕ) × (p' : Private) × (socket_receive whole false 20
        (connected_private came_in [])
      ≡ (pos 0, some (hdr, 3, some b), p'))
    × (stored receiver in_flight no_interrupts message_in_memory (range hdr 3) ≡ header_data)
    × (stored receiver in_flight no_interrupts message_in_memory (range b 2) ≡ payload)
    × (p'.connected ≡ 1)
    × OnTheWay receiver in_flight no_interrupts true payload header_data [] p'.incoming
        message_in_memory
    × (socket_receive whole false 20 p' ≡ (negsuc 0, none, p'))
socket_receive-OnTheWay_example =
    socket_receive-OnTheWay whole false 20 in_flight no_interrupts (connected_private came_in [])
      message_in_memory header_data payload true payload header_data [] refl refl
      (record {
        hdrlen = refl;
        header_data = refl;
        buflen = refl;
        buffer_data = refl;
        buffer = refl;
        behind = refl;
      })

socket_ioq_churn-Churned_example :
    (r : ℤ × List Entry × Peer) × (socket_ioq_churn sender true 8 two_waiting two_entries ≡ ok r)
    × Churned sender sent no_interrupts block two_waiting two_entries r
socket_ioq_churn-Churned_example =
    socket_ioq_churn-Churned sender sent no_interrupts block sender-Sends true 8 two_waiting
      two_entries two_entries-Separate (omega arith, (omega arith, tt))

socket_ioq_churn-drained_example :
    (w' : Peer) × (socket_ioq_churn sender true 8 two_waiting two_entries ≡ ok (pos 0, [], w'))
    × (sent w' ≡ sent two_waiting ++ queued sender sent no_interrupts block two_waiting two_entries)
socket_ioq_churn-drained_example =
    socket_ioq_churn-drained sender sent no_interrupts block sender-Sends true 8 two_waiting
      two_entries writev_takes (((2, refl), omega arith), (((1, refl), omega arith), tt))
      two_entries-Separate (omega arith, (omega arith, tt))

socket_submit-Submitted_example :
    (r : ℤ × List Entry × Peer) × (socket_submit sender true 18 true two_waiting [] 400 3
        data_blocks
        (some 40)
      ≡ ok r)
    × Submitted sender sent no_interrupts block two_waiting []
        (message_header true (u32 3) (u32 (iov_length data_blocks))
          ++ map (memory two_waiting) (places sender sent no_interrupts block 400 3 data_blocks))
        r
unfolding iov_length
socket_submit-Submitted_example =
    socket_submit-Submitted sender sent no_interrupts block sender-Sends sender-Allocates true 18
      two_waiting [] 400 3 data_blocks (some 40) (omega arith) data_blocks-Fresh (omega arith)
