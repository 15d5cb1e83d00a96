-- ===== src/Socket/Handler/Ready.antt =====
-- What a descriptor that is ready to be read leads to.
use lz_lib.Base.{ℕ, ◌≡◌, refl, Bool, true, false, List, [], ◌++◌, Run, ok}
use lz_lib.Base.Int.{ℤ, pos, negsuc, ltb_ℤ}
use lz_lib.Socket.Proto.{complete, Incoming, cleared, socket_proto_state_machine, proto_loop}
use lz_lib.Socket.Handler.Release.{Effect, Logs, released, err_part-released}
use lz_lib.Socket.Handler.{
  Private, Ops, socket_reset, socket_event_poll_err, socket_event_poll_in, out_part, in_part,
  err_part, socket_event_handler,
}

-- The transport is closed, and everything that waited in it is gone.
pub record Closed (p : Private) : Type 0 where
  pub sock : p.sock ≡ negsuc 0
  pub connected : p.connected ≡ 255
  pub incoming : p.incoming ≡ cleared
  pub ioq : p.ioq ≡ []

-- The transport is as before but for what comes in.
pub record Open (p p' : Private) : Type 0 where
  pub sock : p'.sock ≡ p.sock
  pub connected : p'.connected ≡ 1
  pub ioq : p'.ioq ≡ p.ioq

module _ {World : Type 0} (ops : Ops World) (little : Bool) (fuel : ℕ) where
  err_part-Closed :
      (ret : ℤ) (p : Private) (w : World)
      → ltb_ℤ ret (pos 0) ≡ true
      → Closed (err_part ops little fuel false ret p w).0
  unfolding err_part socket_event_poll_err socket_reset
  err_part-Closed ret p w e =
      rw e (record { sock = refl; connected = refl; incoming = refl; ioq = refl })

  -- POLLIN alone, on a connected transport
  abbrev readable : ℤ → Private → World → Run (Private × World)
  readable idx p w = socket_event_handler ops little fuel idx true false false p w

  readable_run :
      (idx : ℤ) (p : Private) (w : World) (ret : ℤ) (i : Incoming) (w' : World)
      → p.connected ≡ 1
      → socket_proto_state_machine ops.proto little fuel p.incoming w ≡ ok (ret, i, w')
      → readable idx p w
        ≡ ok (err_part ops little fuel false ret (record p { idx = idx; incoming = i }) w')
  unfolding socket_event_handler out_part in_part socket_event_poll_in
  readable_run idx p w ret i w' up run = rw (up, run) refl

  -- On a connected transport whose message is complete and not yet received, and with a log of the calls that give
  -- something back, a descriptor that is ready to be read makes `socket_event_handler` close the transport. It gives
  -- back, each once and in this order: of each entry that waits to be sent the reference to its buffers, its data and
  -- itself; the header data and the buffer of the message; the registration of the descriptor with the index of the
  -- call; the descriptor; and the reference to the transport. No message and no entry is left.
  pub socket_event_handler-Closed :
      (log : World → List Effect) (idx : ℤ) (p : Private) (w : World)
      → Logs ops log
      → p.connected ≡ 1
      → p.incoming.state ≡ complete
      → (p' : Private) × (w' : World) × (socket_event_handler ops little fuel idx true false false p
            w
          ≡ ok (p', w'))
        × Closed p'
        × (log w' ≡ log w ++ released (record p { idx = idx }))
  unfolding socket_proto_state_machine proto_loop
  socket_event_handler-Closed log idx p w laws up done =
      let q = record p { idx = idx } in
      let run = readable_run idx p w (negsuc 0) p.incoming w up (rw done refl) in
      let out = err_part ops little fuel false (negsuc 0) q w in
      (
        out.0,
        out.1,
        run,
        err_part-Closed (negsuc 0) q w refl,
        err_part-released ops little fuel log laws (negsuc 0) q w refl,
      )
