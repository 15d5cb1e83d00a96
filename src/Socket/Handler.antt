-- ===== src/Socket/Handler.antt =====
-- What a connected transport does when its descriptor is ready, and how it hands a message on: `socket_event_handler`,
-- `socket_receive`, `socket_disconnect` and what they call, of src/socket.c.
--
-- `Private` holds the fields of `socket_private_t` that these functions use; the lock is held over each of them.
pub mod Receive
pub mod Release
pub mod Ready
use lz_lib.Base.{
  ℕ, zero, suc, Bool, true, false, ◌&&◌, ◌||◌, not, Option, none, some, List, [], ◌∷◌, ◌==◌,
  if◌then◌else◌, Run, ok, fault, ◌>>=◌,
}
use lz_lib.Base.Int.{ℤ, pos, negsuc, eqb_ℤ, ltb_ℤ}
use lz_lib.Socket.Proto.{
  Proto, nada, complete, proto_index, Incoming, cleared, socket_proto_state_machine,
}
use lz_lib.Socket.Queue.{Entry, socket_ioq_flush, socket_ioq_churn}

-- The fields of `socket_private_t`; `connected` is an unsigned char: 0, 1, or 255, for -1, once the connection is shut down.
pub record Private : Type 0 where
  pub sock : ℤ
  pub idx : ℤ
  pub connected : ℕ
  pub incoming : Incoming
  pub ioq : List Entry

-- What the handler calls besides: `shutdown`, `close`, `getsockopt` for SO_ERROR (the `errno` that it gives, or none) and
-- `getsockname` (whether it succeeds) on a descriptor; `event_unregister`, `iobuf_unref` and `transport_unref`;
-- and the index that the last `event_select_on` gave back.
pub record Ops (World : Type 0) : Type 0 where
  pub queue : lz_lib.Socket.Queue.Ops World
  pub proto : lz_lib.Socket.Proto.Ops World
  pub shutdown : World → ℤ → ℤ × World
  pub close : World → ℤ → World
  pub so_error : World → ℤ → Option ℕ
  pub getsockname : World → ℤ → Bool
  pub event_unregister : World → ℤ → ℤ → World
  pub iobuf_unref : World → ℕ → World
  pub transport_unref : World → World
  pub selected : World → ℤ

abbrev pub einprogress : ℕ
einprogress = 115

unfoldable pub none_left : List Entry → Bool
none_left [] = true
none_left (e ∷ es) = false

module _ {World : Type 0} (ops : Ops World) (little : Bool) (fuel : ℕ) where
  -- `__socket_disconnect`
  unfoldable pub socket_disconnect : Private → World → ℤ × Private × World
  socket_disconnect p w =
      if eqb_ℤ p.sock (negsuc 0)
      then (negsuc 0, p, w)
      else ((ops.shutdown w p.sock).0, record p { connected = 255 }, (ops.shutdown w p.sock).1)

  -- `__socket_reset`
  unfoldable pub socket_reset : Private → World → Private × World
  socket_reset p w =
      let w1 = if p.incoming.hdr_p == 0 then w else ops.queue.free w p.incoming.hdr_p in
      let w2 : World = elim p.incoming.iobuf [ none ↦ w1 | some b ↦ ops.iobuf_unref w1 b ] in
      (
        record p { sock = negsuc 0; idx = negsuc 0; connected = 255; incoming = cleared },
        ops.close (ops.event_unregister w2 p.sock p.idx) p.sock,
      )

  -- `socket_event_poll_err`
  unfoldable pub socket_event_poll_err : Private → World → Private × World
  unfolding socket_ioq_flush socket_reset
  socket_event_poll_err p w =
      socket_reset (record p { ioq = [] }) (socket_ioq_flush ops.queue little fuel w p.ioq)

  -- `socket_event_poll_out`: its value is -1 if the transport is not connected.
  unfoldable pub socket_event_poll_out : Private → World → Run (ℤ × Private × World)
  unfolding socket_ioq_churn socket_disconnect none_left
  socket_event_poll_out p w =
      if p.connected == 1
      then (socket_ioq_churn ops.queue little fuel w p.ioq >>= λ r.
          let p' = record p {
            ioq = r.1;
            idx = if none_left r.1 then ops.selected r.2 else p.idx;
          } in
          let down = socket_disconnect p' r.2 in
          ok (if eqb_ℤ r.0 (negsuc 0) then (r.0, down.1, down.2) else (r.0, p', r.2)))
      else ok (negsuc 0, p, w)

  -- `socket_event_poll_in`
  unfoldable pub socket_event_poll_in : Private → World → Run (ℤ × Private × World)
  unfolding socket_proto_state_machine
  socket_event_poll_in p w = socket_proto_state_machine ops.proto little fuel p.incoming w >>= λ r.
      ok (r.0, record p { incoming = r.1 }, r.2)

  -- `socket_connect_finish`, of a transport that is not connected; its value is always 0. While the connection is in
  -- progress nothing changes.
  unfoldable pub socket_connect_finish : Private → World → Private × World
  unfolding socket_disconnect
  socket_connect_finish p w =
      let down = socket_disconnect p w in
      elim (ops.so_error w p.sock) [
        | none ↦
            if ops.getsockname w p.sock then (record p { connected = 1 }, w) else (down.1, down.2)
        | some e ↦ if e == einprogress then (p, w) else (down.1, down.2)
      ]

  -- `socket_event_handler` behind `socket_connect_finish`: each of the two parts runs if what is before it gave 0.
  unfoldable pub out_part : Bool → Private → World → Run (ℤ × Private × World)
  unfolding socket_event_poll_out
  out_part poll_out p w = if poll_out then socket_event_poll_out p w else ok (pos 0, p, w)

  unfoldable pub in_part : Bool → ℤ → Private → World → Run (ℤ × Private × World)
  unfolding socket_event_poll_in
  in_part poll_in ret p w =
      if eqb_ℤ ret (pos 0) && poll_in then socket_event_poll_in p w else ok (ret, p, w)

  unfoldable pub err_part : Bool → ℤ → Private → World → Private × World
  unfolding socket_event_poll_err
  err_part poll_err ret p w =
      let r = socket_event_poll_err p w in
      if ltb_ℤ ret (pos 0) || poll_err then (r.0, ops.transport_unref r.1) else (p, w)

  -- `socket_event_handler`
  unfoldable pub socket_event_handler :
      ℤ → Bool → Bool → Bool → Private → World → Run (Private × World)
  unfolding socket_connect_finish out_part in_part err_part
  socket_event_handler idx poll_in poll_out poll_err p w =
      let p0 = record p { idx = idx } in
      let c = if p0.connected == 0 then socket_connect_finish p0 w else (p0, w) in
      out_part poll_out c.0 c.1 >>= λ o.
      in_part poll_in o.0 o.1 o.2 >>= λ r. ok (err_part poll_err r.0 r.1 r.2)

  -- `socket_receive`, with places for the three results: `*hdr_p`, `*hdrlen_p` and `*iobuf_p` if its value is 0.
  unfoldable pub socket_receive : Private → ℤ × Option (ℕ × ℕ × Option ℕ) × Private
  socket_receive p =
      let i = p.incoming in
      if (p.connected == 1) && (proto_index i.state == 5)
      then (pos 0, some (i.hdr_p, i.hdrlen, i.iobuf), record p { incoming = cleared })
      else (negsuc 0, none, p)
