-- ===== src/Socket/Handler/Release.antt =====
-- What the transport gives back when it is closed, as the calls that do it: `__socket_ioq_flush`, `__socket_reset` and
-- `transport_unref` of src/socket.c.
use lz_lib.Base.{
  ℕ, ◌≡◌, sym, ap, ◌∙◌, Bool, true, false, Option, none, some, List, [], ◌∷◌, ◌++◌, ◌==◌,
  if◌then◌else◌, Bool-cases, inl, inr,
}
use mathlib.Core.List.{append_assoc, append-nil}
use lz_lib.Base.Int.{ℤ, pos, ltb_ℤ}
use lz_lib.Socket.Proto.{Incoming}
use lz_lib.Socket.Queue.{Entry, socket_ioq_entry_free, socket_ioq_flush}
use lz_lib.Socket.Handler.{Private, Ops, socket_reset, socket_event_poll_err, err_part}

-- A call that gives something back: memory, a reference to the buffers of an entry, a buffer, the registration of a
-- descriptor, the descriptor, or the reference to the transport.
pub data Effect : Type 0 where
  freed : ℕ → Effect
  iobref_unreffed : ℕ → Effect
  iobuf_unreffed : ℕ → Effect
  unregistered : ℤ → ℤ → Effect
  closed : ℤ → Effect
  transport_unreffed : Effect

-- Each such call is written at the end of a log.
pub record Logs {World : Type 0} (ops : Ops World) (log : World → List Effect) : Type 0 where
  pub free : (w : World) (p : ℕ) → log (ops.queue.free w p) ≡ log w ++ freed p ∷ []
  pub iobref_unref :
      (w : World) (b : ℕ) → log (ops.queue.iobref_unref w b) ≡ log w ++ iobref_unreffed b ∷ []
  pub iobuf_unref : (w : World) (b : ℕ) → log (ops.iobuf_unref w b) ≡ log w ++ iobuf_unreffed b ∷ []
  pub event_unregister :
      (w : World) (fd idx : ℤ)
      → log (ops.event_unregister w fd idx) ≡ log w ++ unregistered fd idx ∷ []
  pub close : (w : World) (fd : ℤ) → log (ops.close w fd) ≡ log w ++ closed fd ∷ []
  pub transport_unref : (w : World) → log (ops.transport_unref w) ≡ log w ++ transport_unreffed ∷ []

-- What an entry, a queue and a message hold.
abbrev pub entry_held : Entry → List Effect
entry_held e =
    let memory = freed e.buf ∷ freed e.id ∷ [] in
    elim e.iobref [ none ↦ memory | some b ↦ iobref_unreffed b ∷ memory ]

abbrev pub queue_held : List Entry → List Effect
queue_held [] = []
queue_held (e ∷ es) = entry_held e ++ queue_held es

abbrev pub message_held : Incoming → List Effect
message_held i =
    (if i.hdr_p == 0 then [] else freed i.hdr_p ∷ [])
    ++ (elim i.iobuf [ none ↦ [] | some b ↦ iobuf_unreffed b ∷ [] ])

-- All that a transport holds, its own reference last.
abbrev pub released : Private → List Effect
released p =
    queue_held p.ioq
    ++ (message_held p.incoming
        ++ (unregistered p.sock p.idx ∷ closed p.sock ∷ transport_unreffed ∷ []))

module _ {World : Type 0} (ops : Ops World) (little : Bool) (fuel : ℕ) (log : World → List Effect)
    (laws : Logs ops log) where
  -- The two blocks of an entry, behind its buffers' reference.
  blocks_free-log :
      (w : World) (e : Entry)
      → log (ops.queue.free (ops.queue.free w e.buf) e.id)
        ≡ log w ++ (freed e.buf ∷ freed e.id ∷ [])
  blocks_free-log w e =
      laws.free (ops.queue.free w e.buf) e.id
      ∙ ap (λ l. l ++ freed e.id ∷ []) (laws.free w e.buf)
      ∙ append_assoc (log w) (freed e.buf ∷ []) (freed e.id ∷ [])

  entry_free-log_of :
      (w : World) (e : Entry) (r : Option ℕ)
      → log (socket_ioq_entry_free ops.queue little fuel w (record e { iobref = r }))
        ≡ log w ++ entry_held (record e { iobref = r })
  unfolding socket_ioq_entry_free
  entry_free-log_of w e none = blocks_free-log w e
  entry_free-log_of w e (some b) =
      blocks_free-log (ops.queue.iobref_unref w b) e
      ∙ ap (λ l. l ++ (freed e.buf ∷ freed e.id ∷ [])) (laws.iobref_unref w b)
      ∙ append_assoc (log w) (iobref_unreffed b ∷ []) (freed e.buf ∷ freed e.id ∷ [])

  flush-log :
      (w : World) (es : List Entry)
      → log (socket_ioq_flush ops.queue little fuel w es) ≡ log w ++ queue_held es
  unfolding socket_ioq_flush
  flush-log w [] = sym (append-nil (log w))
  flush-log w (e ∷ es) =
      flush-log (socket_ioq_entry_free ops.queue little fuel w e) es
      ∙ ap (λ l. l ++ queue_held es) (entry_free-log_of w e e.iobref)
      ∙ append_assoc (log w) (entry_held e) (queue_held es)

  header_free-log :
      (w : World) (h : ℕ)
      → log (if h == 0 then w else ops.queue.free w h)
        ≡ log w ++ (if h == 0 then [] else freed h ∷ [])
  header_free-log w h = elim (Bool-cases (h == 0)) [
    | inl t ↦ rw t (sym (append-nil (log w)))
    | inr f ↦ rw f (laws.free w h)
  ]

  message-log :
      (w : World) (h : ℕ) (o : Option ℕ)
      → (let w1 = if h == 0 then w else ops.queue.free w h in
          log (elim o [ none ↦ w1 | some b ↦ ops.iobuf_unref w1 b ]))
        ≡ log w
          ++ ((if h == 0 then [] else freed h ∷ [])
              ++ (elim o [ none ↦ [] | some b ↦ iobuf_unreffed b ∷ [] ]))
  message-log w h none =
      header_free-log w h
      ∙ ap (λ l. log w ++ l) (sym (append-nil (if h == 0 then [] else freed h ∷ [])))
  message-log w h (some b) =
      laws.iobuf_unref (if h == 0 then w else ops.queue.free w h) b
      ∙ ap (λ l. l ++ iobuf_unreffed b ∷ []) (header_free-log w h)
      ∙ append_assoc (log w) (if h == 0 then [] else freed h ∷ []) (iobuf_unreffed b ∷ [])

  reset-log :
      (p : Private) (w : World)
      → log (socket_reset ops little fuel p w).1
        ≡ log w ++ (message_held p.incoming ++ (unregistered p.sock p.idx ∷ closed p.sock ∷ []))
  unfolding socket_reset
  reset-log p w =
      let i = p.incoming in
      let w1 = if i.hdr_p == 0 then w else ops.queue.free w i.hdr_p in
      let w2 : World = elim i.iobuf [ none ↦ w1 | some b ↦ ops.iobuf_unref w1 b ] in
      let u = unregistered p.sock p.idx ∷ [] in
      let c = closed p.sock ∷ [] in
      laws.close (ops.event_unregister w2 p.sock p.idx) p.sock
      ∙ ap (λ l. l ++ c) (laws.event_unregister w2 p.sock p.idx)
      ∙ ap (λ l. (l ++ u) ++ c) (message-log w i.hdr_p i.iobuf)
      ∙ append_assoc (log w ++ message_held i) u c
      ∙ append_assoc (log w) (message_held i) (u ++ c)

  -- Closing gives back all that the transport holds, each once.
  pub err_part-released :
      (ret : ℤ) (p : Private) (w : World)
      → ltb_ℤ ret (pos 0) ≡ true
      → log (err_part ops little fuel false ret p w).1 ≡ log w ++ released p
  unfolding err_part socket_event_poll_err
  err_part-released ret p w e =
      let q = record p { ioq = [] } in
      let w1 = socket_ioq_flush ops.queue little fuel w p.ioq in
      let m = message_held p.incoming in
      let uc = unregistered p.sock p.idx ∷ closed p.sock ∷ [] in
      let t = transport_unreffed ∷ [] in
      rw e (
        laws.transport_unref (socket_reset ops little fuel q w1).1
        ∙ ap (λ l. l ++ t) (reset-log q w1)
        ∙ ap (λ l. (l ++ (m ++ uc)) ++ t) (flush-log w p.ioq)
        ∙ append_assoc (log w ++ queue_held p.ioq) (m ++ uc) t
        ∙ ap (λ l. (log w ++ queue_held p.ioq) ++ l) (append_assoc m uc t)
        ∙ append_assoc (log w) (queue_held p.ioq) (m ++ (uc ++ t)))
