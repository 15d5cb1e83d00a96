-- ===== src/Socket/Queue.antt =====
-- What a transport sends: the queue of `struct ioq`, and `__socket_ioq_new`, `__socket_ioq_churn` and `socket_submit` with the
-- functions between them, of src/socket.c.
--
-- The circular list of entries is a list, head first. An entry is known by its address, where also its header stands.
pub mod Message
pub mod Write
pub mod Order
pub mod Drain
pub mod Submit
use lz_lib.Base.{
  ℕ, zero, suc, ◌+◌, ◌^◌, Bool, true, false, Option, none, some, List, [], ◌∷◌, ◌++◌, length, ltb,
  leb, u32, ◌==◌, if◌then◌else◌, Run, ok, fault, aborted, ◌>>=◌,
}
use lz_lib.Base.Int.{ℤ, pos, negsuc, eqb_ℤ, ltb_ℤ}
use lz_lib.Dict.Wire.{net_bytes}
use lz_lib.Socket.{Iov, Reply, Rwv, socket_rwv}

-- The header of `__socket_ioq_new`, by its bytes: the structure is packed.
unfoldable pub message_header : Bool → ℕ → ℕ → List ℕ
unfolding net_bytes
message_header little size1 size2 =
    b':' ∷ (b'O' ∷ (0 ∷ (net_bytes little size1 ++ (net_bytes little size2 ++ (42 ∷ [])))))

-- `iov_length`
unfoldable pub iov_length : List Iov → ℕ
iov_length [] = 0
iov_length (v ∷ vs) = v.len + iov_length vs

-- `struct ioq`; `iobref` is the address of its references to buffers.
pub record Entry : Type 0 where
  pub id : ℕ
  pub count : ℕ
  pub pending_vector : List Iov
  pub pending_count : ℤ
  pub buf : ℕ
  pub iobref : Option ℕ

-- What the queue calls: memory that is read and written, the allocator, `iobref_ref` and `iobref_unref`, `writev` on the
-- descriptor, and `event_select_on` for it with the last argument given; the index that this gives back is not part of
-- the queue.
pub record Ops (World : Type 0) : Type 0 where
  pub mem : World → ℕ → ℕ
  pub store : World → ℕ → List ℕ → World
  pub calloc : World → Option (ℕ × World)
  pub free : World → ℕ → World
  pub iobref_ref : World → ℕ → World
  pub iobref_unref : World → ℕ → World
  pub writev : World → List Iov → Reply × World
  pub select_out : World → Bool → World

module _ {World : Type 0} (ops : Ops World) (little : Bool) (fuel : ℕ) where
  -- `__socket_ioq_new`; the array of an entry has room for 14 blocks of the caller.
  unfoldable pub socket_ioq_new : World → ℕ → ℕ → List Iov → Option ℕ → Run (Option Entry × World)
  unfolding message_header iov_length
  socket_ioq_new w buf len vector iobref = elim (ops.calloc w) [
    | none ↦ ok (none, w)
    | some (e, w1) ↦
        if leb (length vector) 14
        then (let w2 = ops.store w1 e (message_header little (u32 len) (u32 (iov_length vector))) in
            let vec : List Iov =
              record { base = e; len = 12 } ∷ (record { base = buf; len = len } ∷ vector) in
            let w3 : World = elim iobref [ none ↦ w2 | some b ↦ ops.iobref_ref w2 b ] in
            ok (
              some (record {
                id = e;
                count = length vec;
                pending_vector = vec;
                pending_count = pos (length vec);
                buf = buf;
                iobref = iobref;
              }),
              w3,
            ))
        else fault aborted
  ]

  -- `__socket_ioq_entry_free`, of an entry that is off the list
  unfoldable pub socket_ioq_entry_free : World → Entry → World
  socket_ioq_entry_free w e =
      let w1 : World = elim e.iobref [ none ↦ w | some b ↦ ops.iobref_unref w b ] in
      ops.free (ops.free w1 e.buf) e.id

  -- `__socket_ioq_flush`
  unfoldable pub socket_ioq_flush : World → List Entry → World
  unfolding socket_ioq_entry_free
  socket_ioq_flush w [] = w
  socket_ioq_flush w (e ∷ es) = socket_ioq_flush (socket_ioq_entry_free w e) es

  -- `__socket_ioq_churn_entry`: its value, the entry unless it is freed, and the world. A negative count, which an error
  -- leaves, makes `writev` fail with EINVAL.
  unfoldable pub entry_written : Entry → Rwv World → ℤ × Option Entry × World
  unfolding socket_ioq_entry_free
  entry_written e r =
      let e' = record e { pending_vector = r.pending; pending_count = r.ret } in
      if eqb_ℤ r.ret (pos 0)
      then (r.ret, none, socket_ioq_entry_free r.world e')
      else (r.ret, some e', r.world)

  unfoldable pub socket_ioq_churn_entry : World → Entry → Run (ℤ × Option Entry × World)
  unfolding socket_rwv entry_written
  socket_ioq_churn_entry w e = elim e.pending_count [
    | negsuc n ↦ ok (negsuc 0, some e, w)
    | pos n ↦ socket_rwv ops.writev fuel true e.pending_vector w >>= λ r. ok (entry_written e r)
  ]

  -- The loop of `__socket_ioq_churn`: what is left of the queue.
  unfoldable pub churn_loop : ℤ → World → List Entry → Run (ℤ × List Entry × World)
  unfolding socket_ioq_churn_entry
  churn_loop ret w [] = ok (ret, [], w)
  churn_loop ret w (e ∷ es) = socket_ioq_churn_entry w e >>= λ r. elim r.1 [
    | some e' ↦ ok (r.0, e' ∷ es, r.2)
    | none ↦ churn_loop r.0 r.2 es
  ]

  -- `__socket_ioq_churn`
  unfoldable pub socket_ioq_churn : World → List Entry → Run (ℤ × List Entry × World)
  unfolding churn_loop
  socket_ioq_churn w q = churn_loop (pos 0) w q >>= λ r. elim r.1 [
    | [] ↦ ok (r.0, [], ops.select_out r.2 false)
    | e ∷ es ↦ ok r
  ]

  -- `socket_submit` once it has an entry: an entry that is not written whole is put at the end.
  unfoldable pub submit_entry : World → List Entry → Entry → Run (ℤ × List Entry × World)
  unfolding socket_ioq_churn_entry
  submit_entry w [] e = socket_ioq_churn_entry w e >>= λ r. elim r.1 [
    | none ↦ ok (r.0, [], r.2)
    | some e' ↦ ok (pos 0, e' ∷ [], if ltb_ℤ (pos 0) r.0 then ops.select_out r.2 true else r.2)
  ]
  submit_entry w (f ∷ fs) e = ok (pos 0, (f ∷ fs) ++ (e ∷ []), w)

  -- `socket_submit`, of a transport with the queue `q`, connected or not
  unfoldable pub socket_submit :
      Bool → World → List Entry → ℕ → ℕ → List Iov → Option ℕ → Run (ℤ × List Entry × World)
  unfolding socket_ioq_new submit_entry
  socket_submit false w q buf len vector iobref = ok (negsuc 0, q, w)
  socket_submit true w q buf len vector iobref = socket_ioq_new w buf len vector iobref >>= λ r.
      elim r.0 [ none ↦ ok (negsuc 0, q, r.1) | some e ↦ submit_entry r.1 q e ]
