-- ===== src/Socket/Handler/Receive.antt =====
-- What `socket_receive` hands on.
use lz_lib.Base.{ℕ, ◌≡◌, refl, Bool, none, some, List, ◌++◌, length, if◌then◌else◌, ◌==◌}
use lz_lib.Base.Int.{pos, negsuc}
use lz_lib.Socket.Vec.{range}
use lz_lib.Socket.Proto.{complete, cleared}
use lz_lib.Socket.Proto.Sound.{stored}
use lz_lib.Socket.Proto.Arrive.{Arrived, OnTheWay}
use lz_lib.Socket.Queue.{message_header}
use lz_lib.Socket.Handler.{Private, Ops, socket_receive}

module _ {World : Type 0} (ops : Ops World) (little : Bool) (fuel : ℕ) (in_flight : World → List ℕ)
    (interrupts : World → ℕ) where
  -- A message that is complete and of which the bytes behind it are the next message of the sender, on a connected
  -- transport: `socket_receive` returns 0 and gives the blocks that hold the two parts as they were sent and the length of
  -- the first, the transport stays connected and is at the start of the next message, and a second call gives -1 and
  -- changes nothing.
  pub socket_receive-OnTheWay :
      (p : Private) (w : World) (buf payload : List ℕ) (sender : Bool) (buf2 payload2 more : List ℕ)
      → p.connected ≡ 1
      → p.incoming.state ≡ complete
      → Arrived ops.proto in_flight interrupts buf payload
          (message_header sender (length buf2) (length payload2) ++ (buf2 ++ (payload2 ++ more)))
          p.incoming
          w
      → (hdr : ℕ) × (b : ℕ) × (p' : Private) × (socket_receive ops little fuel p
          ≡ (pos 0, some (hdr, length buf, if length payload == 0 then none else some b), p'))
        × (stored ops.proto in_flight interrupts w (range hdr (length buf)) ≡ buf)
        × (stored ops.proto in_flight interrupts w (range b (length payload)) ≡ payload)
        × (p'.connected ≡ 1)
        × OnTheWay ops.proto in_flight interrupts sender buf2 payload2 more p'.incoming w
        × (socket_receive ops little fuel p' ≡ (negsuc 0, none, p'))
  unfolding socket_receive
  socket_receive-OnTheWay p w buf payload sender buf2 payload2 more up done here = (
    p.incoming.hdr_p,
    p.incoming.buf_p,
    record p { incoming = cleared },
    rw (up, done, here.hdrlen, here.buffer) refl,
    here.header_data,
    here.buffer_data,
    up,
    (refl, here.behind),
    rw up refl,
  )
