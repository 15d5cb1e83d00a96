-- ===== src/Socket/Queue/Order.antt =====
-- The queue of a transport loses no byte, doubles none and keeps their order.
use lz_lib.Base.{
  each, ℕ, ◌+◌, ◌<◌, ◌≡◌, ◌≢◌, ◌⊎◌, inl, inr, refl, sym, ap, subst, ◌∙◌, Bool, false, Option, none,
  some, List, [], ◌∷◌, ◌++◌, All, length, ok, arith,
}
use mathlib.Core.List.{append_assoc}
use lz_lib.Base.Int.{ℤ, pos}
use lz_lib.ListHead.Seg.{NoDup}
use lz_lib.Socket.Vec.{addresses}
use lz_lib.Socket.Transfer.{NoDup-drop}
use lz_lib.Socket.Streams.{map_same}
use lz_lib.Socket.Queue.{Entry, Ops, socket_ioq_churn_entry, churn_loop, socket_ioq_churn}
use lz_lib.Socket.Queue.Write.{
  Sends, bytes, queued, Outside, Separate, Tried, socket_ioq_churn_entry-Tried,
}

abbrev NotNil : List Entry → Type 0
NotNil [] = ⊥
NotNil (e ∷ es) = Unit

module _ {World : Type 0} (ops : Ops World) (sent : World → List ℕ) (interrupts : World → ℕ)
    (block : ℕ → List ℕ) where
  -- How the queue is left: what is sent and what waits are together the same bytes in the same order.
  abbrev pub Churned : World → List Entry → ℤ × List Entry × World → Type 0
  Churned w q (ret, q', w') =
      (sent w' ++ queued ops sent interrupts block w' q'
        ≡ sent w ++ queued ops sent interrupts block w q)
      × Separate ops sent interrupts block q'
      × (((ret ≡ pos 0) × (q' ≡ [])) ⊎ ((ret ≢ pos 0) × (q' ≢ [])))

  module _ (law : Sends ops sent interrupts block) (little : Bool) (fuel : ℕ) where
    -- Memory that is kept at what an entry sends keeps what it sends.
    pub queued_kept :
        (w w' : World) (es : List Entry)
        → All (λ f. All (λ a. ops.mem w' a ≡ ops.mem w a) (addresses f.pending_vector)) es
        → queued ops sent interrupts block w' es ≡ queued ops sent interrupts block w es
    queued_kept w w' [] h = refl
    queued_kept w w' (e ∷ es) h = cc (
      map_same (ops.mem w') (ops.mem w) (addresses e.pending_vector) h.0,
      queued_kept w w' es h.1,
    )

    Outside-queued :
        (e : Entry) (w w' : World)
        → ((a : ℕ)
            → All (λ x. x ≢ a) (block e.buf)
            → All (λ x. x ≢ a) (block e.id)
            → ops.mem w' a ≡ ops.mem w a)
        → (es : List Entry) → All (λ f. Outside ops sent interrupts block e f) es
        → queued ops sent interrupts block w' es ≡ queued ops sent interrupts block w es
    Outside-queued e w w' h es o =
        queued_kept w w' es
          (each (λ f k. each (λ a p. h a p.0 p.1) (addresses f.pending_vector) k) es o)

    -- The queue behind an entry that was tried.
    churn_on :
        (w : World) (e : Entry) (es : List Entry) (r : ℤ × Option Entry × World)
        → socket_ioq_churn_entry ops little fuel w e ≡ ok r
        → Tried ops sent interrupts block e w r
        → Separate ops sent interrupts block (e ∷ es)
        → All (λ f. length (addresses f.pending_vector) + interrupts w < fuel) es
        → ((w' : World)
            → All (λ f. length (addresses f.pending_vector) + interrupts w' < fuel) es
            → (r : ℤ × List Entry × World) × (churn_loop ops little fuel (pos 0) w' es ≡ ok r)
              × Churned w' es r)
        → (r : ℤ × List Entry × World) × (churn_loop ops little fuel (pos 0) w (e ∷ es) ≡ ok r)
          × Churned w (e ∷ es) r
    unfolding churn_loop
    churn_on w e es (ret, none, w') run (z, all, frame, calm) s b ih =
        let (r, go, (same, sep, ends)) = ih w' (each (λ f h. omega (arith, h, calm)) es b) in
        (
          r,
          rw (run, z) go,
          (
            same
                ∙ ap (λ t. t ++ queued ops sent interrupts block w' es) all
                ∙ append_assoc (sent w) (bytes ops sent interrupts block w e)
                    (queued ops sent interrupts block w' es)
                ∙ ap (λ t. sent w ++ (bytes ops sent interrupts block w e ++ t))
                    (Outside-queued e w w' frame es s.1),
            sep,
            ends,
          ),
        )
    churn_on w e es (ret, some e', w') run (nz, all, frame, (c, at), b1, b2) s b ih = (
      (ret, e' ∷ es, w'),
      rw run refl,
      (
        sym (
              append_assoc (sent w') (bytes ops sent interrupts block w' e')
                (queued ops sent interrupts block w' es))
            ∙ ap (λ t. t ++ queued ops sent interrupts block w' es) all
            ∙ append_assoc (sent w) (bytes ops sent interrupts block w e)
                (queued ops sent interrupts block w' es)
            ∙ ap (λ t. sent w ++ (bytes ops sent interrupts block w e ++ t))
                (Outside-queued e w w' (λ a h k. frame a) es s.1),
        (
          subst NoDup (sym at) (NoDup-drop c (addresses e.pending_vector) s.0),
          each (λ f o. rw (b1, b2) o) es s.1,
          s.2,
        ),
        inr (nz, λ h. subst NotNil h tt),
      ),
    )

    churn_loop-Churned :
        (w : World) (q : List Entry)
        → Separate ops sent interrupts block q
        → All (λ f. length (addresses f.pending_vector) + interrupts w < fuel) q
        → (r : ℤ × List Entry × World) × (churn_loop ops little fuel (pos 0) w q ≡ ok r)
          × Churned w q r
    unfolding churn_loop
    churn_loop-Churned w [] s b = ((pos 0, [], w), refl, (refl, tt, inl (refl, refl)))
    churn_loop-Churned w (e ∷ es) s b =
        let (r, run, tried) =
          socket_ioq_churn_entry-Tried ops sent interrupts block law little fuel w e s.0 b.0 in
        churn_on w e es r run tried s b.1 (λ w' b'. churn_loop-Churned w' es s.2 b')

    quiet_end :
        (w : World) (q : List Entry) (r : ℤ × List Entry × World)
        → churn_loop ops little fuel (pos 0) w q ≡ ok r
        → Churned w q r
        → (r : ℤ × List Entry × World) × (socket_ioq_churn ops little fuel w q ≡ ok r)
          × Churned w q r
    unfolding socket_ioq_churn
    quiet_end w q (ret, [], w') run (all, sep, ends) =
        let quiet = law.select_out w' false in
        (
          (ret, [], ops.select_out w' false),
          rw run refl,
          (ap (λ t. t ++ []) quiet.0 ∙ all, sep, ends),
        )
    quiet_end w q (ret, e ∷ es, w') run rest = ((ret, e ∷ es, w'), rw run refl, rest)

    -- `__socket_ioq_churn`, with a `writev` that sends bytes of the front of its blocks or fails and sends none, on entries
    -- that cover no address twice and whose blocks are none that is freed before them, with rounds for every byte and
    -- interrupt: it returns, the bytes that are sent and those that still wait are together,
    -- in order, those before, and it returns 0 just when nothing waits.
    pub socket_ioq_churn-Churned :
        (w : World) (q : List Entry)
        → Separate ops sent interrupts block q
        → All (λ f. length (addresses f.pending_vector) + interrupts w < fuel) q
        → (r : ℤ × List Entry × World) × (socket_ioq_churn ops little fuel w q ≡ ok r)
          × Churned w q r
    socket_ioq_churn-Churned w q s b =
        let (r, run, rest) = churn_loop-Churned w q s b in quiet_end w q r run rest
