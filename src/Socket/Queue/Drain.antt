-- ===== src/Socket/Queue/Drain.antt =====
-- While the descriptor takes bytes, the queue of a transport is sent whole.
use lz_lib.Base.{
  each, false, length-append, ℕ, zero, suc, ◌+◌, ◌<◌, ◌≡◌, ◌⊎◌, inl, inr, refl, sym, ap, subst, ◌∙◌,
  Bool, true, none, List, [], ◌∷◌, ◌++◌, All, length, ok, arith,
}
use mathlib.Core.List.{append-nil}
use lz_lib.Base.Int.{pos}
use lz_lib.ListHead.Seg.{NoDup}
use lz_lib.Socket.{Iov, moved, failed, eintr, Rwv, paused, after_call, socket_rwv}
use lz_lib.Socket.Vec.{range, addresses, advance-addresses, length-range, Lively}
use lz_lib.Socket.Transfer.{Step, NoDup-drop, length-drop}
use lz_lib.Socket.Streams.{Writes}
use lz_lib.Socket.Queue.{
  Entry, Ops, entry_written, socket_ioq_churn_entry, churn_loop, socket_ioq_churn,
}
use lz_lib.Socket.Queue.Order.{socket_ioq_churn-Churned}
use lz_lib.Socket.Queue.Write.{Sends, Separate, Tried, queued, socket_ioq_churn_entry-Tried}

module _ {World : Type 0} (ops : Ops World) (sent : World → List ℕ) (interrupts : World → ℕ)
    (block : ℕ → List ℕ) (law : Sends ops sent interrupts block) (little : Bool) (fuel : ℕ) where
  -- `writev` takes at least one byte of blocks that have any, or is interrupted.
  abbrev pub Accepts : Type 0
  Accepts =
      (w : World) (vec : List Iov)
      → 0 < length (addresses vec)
      → ((n : ℕ) × ((ops.writev w vec).0 ≡ moved (suc n))) ⊎ ((ops.writev w vec).0 ≡ failed eintr)

  -- An entry on which no write failed, and of which something is left.
  abbrev pub Waiting : Entry → Type 0
  Waiting e = ((n : ℕ) × (e.pending_count ≡ pos n)) × Lively e.pending_vector

  socket_rwv-whole :
      (fuel : ℕ) (vec : List Iov) (w : World)
      → Accepts
      → NoDup (addresses vec)
      → Lively vec
      → length (addresses vec) + interrupts w < fuel
      → (r : Rwv World) × (socket_rwv ops.writev fuel true vec w ≡ ok r) × (r.ret ≡ pos 0)
  unfolding socket_rwv after_call paused
  socket_rwv-whole zero vec w accepts d live b = absurd (omega arith)
  socket_rwv-whole (suc fuel) [] w accepts d live b = (paused ops.writev 0 [] w, refl, refl)
  socket_rwv-whole (suc fuel) (v ∷ vs) w accepts d live b =
      let some_left : 0 < length (addresses (v ∷ vs)) = omega (
        arith,
        live,
        length-append (range v.base v.len) (addresses vs),
        length-range v.base v.len,
      ) in
      let step = law.writev w (v ∷ vs) d in
      elim (accepts w (v ∷ vs) some_left) [
        | inl (n, took) ↦
            let (inside, m, calm) =
              subst
                (λ t.
                  Step (Writes ops.mem sent) interrupts (addresses (v ∷ vs)) w t
                    (ops.writev w (v ∷ vs)).1)
                took step in
            let (vec', run, at, lively) = advance-addresses (suc n) (v ∷ vs) (omega arith) inside in
            let len = ap length at ∙ length-drop (suc n) (addresses (v ∷ vs)) in
            let (r, go, whole) =
              socket_rwv-whole fuel vec' (ops.writev w (v ∷ vs)).1 accepts
                (subst NoDup (sym at) (NoDup-drop (suc n) (addresses (v ∷ vs)) d)) lively
                (omega (arith, len, inside, calm)) in
            (r, rw (took, run) go, whole)
        | inr stopped ↦
            let (m, calm, less) =
              subst
                (λ t.
                  Step (Writes ops.mem sent) interrupts (addresses (v ∷ vs)) w t
                    (ops.writev w (v ∷ vs)).1)
                stopped step in
            let (r, go, whole) =
              socket_rwv-whole fuel (v ∷ vs) (ops.writev w (v ∷ vs)).1 accepts d live
                (omega (arith, less refl)) in
            (r, rw stopped go, whole)
      ]

  entry_whole :
      (w : World) (e : Entry)
      → Accepts
      → Waiting e
      → NoDup (addresses e.pending_vector)
      → length (addresses e.pending_vector) + interrupts w < fuel
      → (w' : World) × (socket_ioq_churn_entry ops little fuel w e ≡ ok (pos 0, none, w'))
  unfolding socket_ioq_churn_entry entry_written
  entry_whole w e accepts ((n, count), live) d b =
      let (r, run, whole) = socket_rwv-whole fuel e.pending_vector w accepts d live b in
      ((entry_written ops little fuel e r).2, rw (count, run, whole) refl)

  churn_loop-whole :
      (w : World) (q : List Entry)
      → Accepts
      → All Waiting q
      → Separate ops sent interrupts block q
      → All (λ f. length (addresses f.pending_vector) + interrupts w < fuel) q
      → (w' : World) × (churn_loop ops little fuel (pos 0) w q ≡ ok (pos 0, [], w'))
  unfolding churn_loop
  churn_loop-whole w [] accepts waits s b = (w, refl)
  churn_loop-whole w (e ∷ es) accepts waits s b =
      let (w', run) = entry_whole w e accepts waits.0 s.0 b.0 in
      let (r, run', tried) =
        socket_ioq_churn_entry-Tried ops sent interrupts block law little fuel w e s.0 b.0 in
      let same : r ≡ (pos 0, none, w') = cc (run, run') in
      let calm = (subst (Tried ops sent interrupts block e w) same tried).3 in
      let (w'', go) =
        churn_loop-whole w' es accepts waits.1 s.2 (each (λ f h. omega (arith, h, calm)) es b.1) in
      (w'', rw run go)

  -- While `writev` sends at least one byte of the front of its blocks in each call or is interrupted, a queue of entries on which no write failed,
  -- that cover no address twice and whose blocks are none that is freed before them, with rounds for every byte and
  -- interrupt: `__socket_ioq_churn` returns 0, the queue is empty, and all that waited is sent, in order.
  pub socket_ioq_churn-drained :
      (w : World) (q : List Entry)
      → Accepts
      → All Waiting q
      → Separate ops sent interrupts block q
      → All (λ f. length (addresses f.pending_vector) + interrupts w < fuel) q
      → (w' : World) × (socket_ioq_churn ops little fuel w q ≡ ok (pos 0, [], w'))
        × (sent w' ≡ sent w ++ queued ops sent interrupts block w q)
  unfolding socket_ioq_churn
  socket_ioq_churn-drained w q accepts waits s b =
      let (w', go) = churn_loop-whole w q accepts waits s b in
      let run : socket_ioq_churn ops little fuel w q ≡ ok (pos 0, [], ops.select_out w' false) =
        rw go refl in
      let (r, run', (all, sep, ends)) =
        socket_ioq_churn-Churned ops sent interrupts block law little fuel w q s b in
      let same : r ≡ (pos 0, [], ops.select_out w' false) = cc (run, run') in
      let kept =
        subst
          (λ r.
            sent r.2 ++ queued ops sent interrupts block r.2 r.1
            ≡ sent w ++ queued ops sent interrupts block w q)
          same all in
      (ops.select_out w' false, run, sym (append-nil (sent (ops.select_out w' false))) ∙ kept)
