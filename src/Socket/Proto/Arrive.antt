-- ===== src/Socket/Proto/Arrive.antt =====
-- A message that one transport sends arrives at another, however it is cut into pieces.
use lz_lib.Base.{
  ℕ, ◌+◌, ◌<◌, ◌≤◌, ◌≡◌, ◌≢◌, ◌⊎◌, inl, inr, refl, sym, ap, subst, ◌∙◌, Bool, false, none, some,
  List, ◌++◌, map, length, ok, arith, ◌==◌, if◌then◌else◌,
}
use mathlib.Core.List.{append_assoc}
use lz_lib.Base.Int.{ℤ, pos, negsuc, eqb_ℤ}
use lz_lib.Socket.Vec.{range, length-range}
use lz_lib.Socket.Streams.{map-append}
use lz_lib.Socket.Proto.{
  Proto, nada, header_coming, header_came, data_coming, data_came, complete, proto_index, Incoming,
  Ops, socket_proto_state_machine,
}
use lz_lib.Socket.Proto.Sound.{stored, Serves, Sound}
use lz_lib.Socket.Proto.Turns.{append-parts, length-map, Zero}
use lz_lib.Socket.Proto.Receive.{proto_loop-Received}
use lz_lib.Socket.Queue.{message_header}
use lz_lib.Socket.Queue.Message.{length-message_header, validate_header-message_header}

Zero-early : (s : Proto) (ret : ℤ) → s ≢ complete → s ≢ data_came → Zero s ret
Zero-early nada ret a b = tt
Zero-early header_coming ret a b = tt
Zero-early header_came ret a b = tt
Zero-early data_coming ret a b = tt
Zero-early data_came ret a b = absurd (b refl)
Zero-early complete ret a b = absurd (a refl)

fresh_loop : (s : Proto) → eqb_ℤ (negsuc 0) (pos (proto_index s)) ≡ false
fresh_loop s = ground arith

module _ {World : Type 0} (ops : Ops World) (in_flight : World → List ℕ)
    (interrupts : World → ℕ) where
  -- The message is in memory, and nothing behind it is taken.
  pub record Arrived (buf payload more : List ℕ) (i : Incoming) (w : World) : Type 0 where
    pub hdrlen : i.hdrlen ≡ length buf
    pub header_data : stored ops in_flight interrupts w (range i.hdr_p (length buf)) ≡ buf
    pub buflen : i.buflen ≡ length payload
    pub buffer_data : stored ops in_flight interrupts w (range i.buf_p (length payload)) ≡ payload
    pub buffer : i.iobuf ≡ (if length payload == 0 then none else some i.buf_p)
    pub behind : in_flight w ≡ more

  -- What was in flight: a message, and what is behind it.
  abbrev pub OnTheWay : Bool → List ℕ → List ℕ → List ℕ → Incoming → World → Type 0
  OnTheWay sender buf payload more i w =
      Sound ops in_flight interrupts (message_header sender (length buf) (length payload))
        (buf ++ (payload ++ more)) (length buf) (length payload) i.state i w

  Sound-Arrived :
      (sender : Bool) (buf payload more : List ℕ) (i : Incoming) (w : World)
      → i.state ≡ complete
      → OnTheWay sender buf payload more i w
      → Arrived buf payload more i w
  Sound-Arrived sender buf payload more i w at sound =
      let h = message_header sender (length buf) (length payload) in
      let body = buf ++ (payload ++ more) in
      let (placed, sum) =
        subst
          (λ s.
            Sound ops in_flight interrupts (message_header sender (length buf) (length payload))
              (buf ++ (payload ++ more)) (length buf) (length payload) s i w)
          at sound in
      let xs = range i.hdr_p (length buf) in
      let ys = range i.buf_p (length payload) in
      let whole : map (ops.mem w) xs ++ (map (ops.mem w) ys ++ in_flight w)
          ≡ buf ++ (payload ++ more) =
        sym (
          ap (λ t. t ++ in_flight w) (map-append (ops.mem w) xs ys)
          ∙ append_assoc (map (ops.mem w) xs) (map (ops.mem w) ys) (in_flight w))
        ∙ sum in
      let (first, rest) =
        append-parts (map (ops.mem w) xs) buf (map (ops.mem w) ys ++ in_flight w) (payload ++ more)
          whole (length-map (ops.mem w) xs ∙ length-range i.hdr_p (length buf)) in
      let (second, behind) =
        append-parts (map (ops.mem w) ys) payload (in_flight w) more rest
          (length-map (ops.mem w) ys ∙ length-range i.buf_p (length payload)) in
      record {
        hdrlen = placed.0;
        header_data = first;
        buflen = placed.1;
        buffer_data = second;
        buffer = placed.2;
        behind = behind;
      }

  -- A message that a transport sends, of 1 to 1048576 bytes of header data and at most 131072 bytes of payload, at any stage
  -- of its way before its data are all there, on a target of either byte order, with a `readv` that takes bytes in order or
  -- fails and takes none, an allocator and a pool that give memory nothing else uses, and enough rounds for the bytes and
  -- the interrupts: a call of `socket_proto_state_machine` ends, whatever pieces the kernel delivers. It returns 0 exactly
  -- if the message is complete, and then the data are in memory as they were sent, and no byte behind the message is
  -- taken. Otherwise the message is still on its way, with what came in its place.
  pub socket_proto_state_machine-Arrived :
      (sender little : Bool) (buf payload more : List ℕ) (fuel : ℕ) (i : Incoming) (w : World)
      → Serves ops in_flight interrupts
      → 0 < length buf
      → length buf ≤ 1048576
      → length payload ≤ 131072
      → 12 + length buf + length payload + interrupts w < fuel
      → i.state ≢ complete
      → i.state ≢ data_came
      → OnTheWay sender buf payload more i w
      → (ret : ℤ) × (i' : Incoming) × (w' : World) × (socket_proto_state_machine ops little fuel i w
          ≡ ok (ret, i', w'))
        × (((ret ≡ pos 0) × (i'.state ≡ complete) × Arrived buf payload more i' w')
            ⊎ ((ret ≢ pos 0) × (i'.state ≢ complete) × OnTheWay sender buf payload more i' w'))
        × (interrupts w' ≤ interrupts w)
  unfolding socket_proto_state_machine
  socket_proto_state_machine-Arrived sender little buf payload more fuel i w law some_bytes a b
        enough open_yet early sound =
      let l = length buf in
      let p = length payload in
      let (out, run, (kept, value, calm)) =
        proto_loop-Received ops in_flight interrupts law little
          (message_header sender (length buf) (length payload)) (buf ++ (payload ++ more))
          (length buf) (length payload) fuel 6 (negsuc 0) (negsuc 0) i w sound
          (Zero-early i.state (negsuc 0) open_yet early) (omega arith) (fresh_loop i.state)
          (length-message_header sender l p)
          (validate_header-message_header sender little l p some_bytes a b) b (omega arith) in
      (
        out.0,
        out.1,
        out.2,
        run,
        elim value [
          | inl (z, done) ↦
              inl (z, done, Sound-Arrived sender buf payload more out.1 out.2 done kept)
          | inr (z, yet) ↦ inr (z, yet, kept)
        ],
        calm,
      )
