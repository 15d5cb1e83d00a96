-- ===== src/Socket/Queue/Submit.antt =====
-- What `socket_submit` puts behind the bytes that wait.
use lz_lib.Base.{
  each, everywhere, ℕ, ◌+◌, ◌<◌, ◌≤◌, ◌≡◌, ◌≢◌, ◌⊎◌, inl, inr, refl, sym, ap, subst, ◌∙◌, Bool,
  true, Option, none, some, List, [], ◌∷◌, ◌++◌, All, map, length, length-append, leb, u32, ok,
  arith, Bool-cases, Option-cases,
}
use mathlib.Core.List.{append_assoc, append-nil}
use lz_lib.Base.Int.{ℤ, pos, negsuc, ltb_ℤ}
use lz_lib.ListHead.Seg.{NoDup}
use lz_lib.Socket.{Iov}
use lz_lib.Socket.Vec.{range, addresses, length-range}
use lz_lib.Socket.Streams.{map-append, map_same}
use lz_lib.Socket.Queue.{
  Entry, Ops, message_header, iov_length, socket_ioq_new, socket_ioq_churn_entry, submit_entry,
  socket_submit,
}
use lz_lib.Socket.Queue.Message.{length-message_header}
use lz_lib.Socket.Queue.Order.{queued_kept}
use lz_lib.Socket.Queue.Write.{Sends, bytes, queued, Tried, socket_ioq_churn_entry-Tried}

length-addresses : (vec : List Iov) → length (addresses vec) ≡ iov_length vec
unfolding iov_length
length-addresses [] = refl
length-addresses (v ∷ vs) = omega (
  arith,
  length-append (range v.base v.len) (addresses vs),
  length-range v.base v.len,
  length-addresses vs,
)

module _ {World : Type 0} (ops : Ops World) (sent : World → List ℕ) (interrupts : World → ℕ)
    (block : ℕ → List ℕ) where
  -- `calloc` changes no memory but the block that it gives, which has room for the header; `store` writes where it is told
  -- to; and taking a reference changes no memory.
  pub record Allocates : Type 0 where
    pub calloc :
        (w w1 : World) (e : ℕ)
        → ops.calloc w ≡ some (e, w1)
        → (sent w1 ≡ sent w)
          × (interrupts w1 ≤ interrupts w)
          × ((a : ℕ)
              → All (λ x. x ≢ a) (block e)
              → (ops.mem w1 a ≡ ops.mem w a) × All (λ x. x ≢ a) (range e 12))
    pub store :
        (w : World) (e : ℕ) (bs : List ℕ)
        → (sent (ops.store w e bs) ≡ sent w)
          × (interrupts (ops.store w e bs) ≤ interrupts w)
          × (map (ops.mem (ops.store w e bs)) (range e (length bs)) ≡ bs)
          × ((a : ℕ)
              → All (λ x. x ≢ a) (range e (length bs))
              → ops.mem (ops.store w e bs) a ≡ ops.mem w a)
    pub iobref_ref :
        (w : World) (b : ℕ)
        → (sent (ops.iobref_ref w b) ≡ sent w)
          × (interrupts (ops.iobref_ref w b) ≤ interrupts w)
          × ((a : ℕ) → ops.mem (ops.iobref_ref w b) a ≡ ops.mem w a)

  -- The addresses of the data.
  abbrev pub places : ℕ → ℕ → List Iov → List ℕ
  places buf len vector = range buf len ++ addresses vector

  -- An address that the block of a new entry does not cover.
  abbrev pub Apart : ℕ → ℕ → Type 0
  Apart e a = All (λ x. x ≢ a) (block e)

  -- The block of a new entry is not used by the data or by the queue.
  abbrev pub Fresh : World → List Entry → ℕ → ℕ → List Iov → Type 0
  Fresh w q buf len vector =
      (e : ℕ) (w1 : World)
      → ops.calloc w ≡ some (e, w1)
      → NoDup (range e 12 ++ places buf len vector)
        × All (Apart e) (places buf len vector)
        × All (λ f. All (Apart e) (addresses f.pending_vector)) q

  -- How `socket_submit` leaves the queue.
  abbrev pub Submitted : World → List Entry → List ℕ → ℤ × List Entry × World → Type 0
  Submitted w q message (ret, q', w') =
      ((ret ≡ negsuc 0) × (ops.calloc w ≡ none) × (q' ≡ q) × (w' ≡ w))
      ⊎ ((ret ≡ pos 0)
          × (sent w' ++ queued ops sent interrupts block w' q'
              ≡ sent w ++ (queued ops sent interrupts block w q ++ message)))

  module _ (law : Sends ops sent interrupts block) (alloc : Allocates) (little : Bool)
      (fuel : ℕ) where
    abbrev new_entry : ℕ → ℕ → ℕ → List Iov → Option ℕ → Entry
    new_entry e buf len vector iobref =
        let vec : List Iov =
          record { base = e; len = 12 } ∷ (record { base = buf; len = len } ∷ vector) in
        record {
          id = e;
          count = length vec;
          pending_vector = vec;
          pending_count = pos (length vec);
          buf = buf;
          iobref = iobref;
        }

    referenced :
        (w : World) (iobref : Option ℕ)
        → (w' : World) × (elim iobref as (λ x. World) [ none ↦ w | some b ↦ ops.iobref_ref w b ]
            ≡ w')
          × (sent w' ≡ sent w)
          × (interrupts w' ≤ interrupts w)
          × ((a : ℕ) → ops.mem w' a ≡ ops.mem w a)
    referenced w none = (w, refl, refl, omega arith, λ a. refl)
    referenced w (some b) =
        let (s, i, m) = alloc.iobref_ref w b in (ops.iobref_ref w b, refl, s, i, m)

    -- A new entry: its header is written, and all else is as before.
    ioq_new :
        (w w1 : World) (e buf len : ℕ) (vector : List Iov) (iobref : Option ℕ)
        → length vector ≤ 14
        → ops.calloc w ≡ some (e, w1)
        → (w' : World) × (socket_ioq_new ops little fuel w buf len vector iobref
            ≡ ok (some (new_entry e buf len vector iobref), w'))
          × (sent w' ≡ sent w)
          × (interrupts w' ≤ interrupts w)
          × (map (ops.mem w') (range e 12)
              ≡ message_header little (u32 len) (u32 (iov_length vector)))
          × ((a : ℕ) → Apart e a → ops.mem w' a ≡ ops.mem w a)
    unfolding socket_ioq_new
    ioq_new w w1 e buf len vector iobref room got =
        let header = message_header little (u32 len) (u32 (iov_length vector)) in
        let long = length-message_header little (u32 len) (u32 (iov_length vector)) in
        let (s1, i1, m1) = alloc.calloc w w1 e got in
        let w2 = ops.store w1 e header in
        let (s2, i2, h2, m2) = alloc.store w1 e header in
        let (w3, run, s3, i3, m3) = referenced w2 iobref in
        let fits : leb (length vector) 14 ≡ true = ground (arith, room) in
        (
          w3,
          rw (socket_ioq_new, got, fits, run) refl,
          s3 ∙ s2 ∙ s1,
          omega (arith, i1, i2, i3),
          map_same (ops.mem w3) (ops.mem w2) (range e 12) (everywhere m3 (range e 12))
              ∙ subst (λ n. map (ops.mem w2) (range e n) ≡ header) long h2,
          λ a h.
              m3 a
              ∙ m2 a (subst (λ n. All (λ x. x ≢ a) (range e n)) (sym long) (m1 a h).1)
              ∙ (m1 a h).0,
        )

    queued-append :
        (w : World) (q : List Entry) (e : Entry)
        → queued ops sent interrupts block w (q ++ (e ∷ []))
          ≡ queued ops sent interrupts block w q ++ bytes ops sent interrupts block w e
    queued-append w [] e = append-nil (bytes ops sent interrupts block w e)
    queued-append w (f ∷ fs) e =
        ap (λ t. bytes ops sent interrupts block w f ++ t) (queued-append w fs e)
        ∙ sym (
            append_assoc (bytes ops sent interrupts block w f)
              (queued ops sent interrupts block w fs) (bytes ops sent interrupts block w e))

    -- The first write of an entry that nothing waits before.
    submit_first :
        (w : World) (e : Entry) (r : ℤ × Option Entry × World)
        → socket_ioq_churn_entry ops little fuel w e ≡ ok r
        → Tried ops sent interrupts block e w r
        → (r : ℤ × List Entry × World) × (submit_entry ops little fuel w [] e ≡ ok r)
          × (r.0 ≡ pos 0)
          × (sent r.2 ++ queued ops sent interrupts block r.2 r.1
              ≡ sent w ++ bytes ops sent interrupts block w e)
    unfolding submit_entry
    submit_first w e (ret, none, w') run (z, all, frame, calm) =
        ((ret, [], w'), rw run refl, z, append-nil (sent w') ∙ all)
    submit_first w e (ret, some e', w') run (nz, all, frame, at, b1, b2) =
        let quiet = law.select_out w' true in
        let b = bytes ops sent interrupts block in
        elim (Bool-cases (ltb_ℤ (pos 0) ret)) [
          | inl more ↦
              let w'' = ops.select_out w' true in
              let same : b w'' e' ≡ b w' e' =
                map_same (ops.mem w'') (ops.mem w') (addresses e'.pending_vector)
                  (everywhere quiet.1 (addresses e'.pending_vector)) in
              (
                (pos 0, e' ∷ [], w''),
                rw (run, more) refl,
                refl,
                ap (λ t. sent w'' ++ t) (append-nil (b w'' e') ∙ same)
                    ∙ ap (λ t. t ++ b w' e') quiet.0
                    ∙ all,
              )
          | inr less ↦ (
            (pos 0, e' ∷ [], w'),
            rw (run, less) refl,
            refl,
            ap (λ t. sent w' ++ t) (append-nil (b w' e')) ∙ all,
          )
        ]

    submit_behind :
        (w : World) (q : List Entry) (e : Entry)
        → NoDup (addresses e.pending_vector)
        → length (addresses e.pending_vector) + interrupts w < fuel
        → (r : ℤ × List Entry × World) × (submit_entry ops little fuel w q e ≡ ok r)
          × (r.0 ≡ pos 0)
          × (sent r.2 ++ queued ops sent interrupts block r.2 r.1
              ≡ sent w
                ++ (queued ops sent interrupts block w q ++ bytes ops sent interrupts block w e))
    unfolding submit_entry
    submit_behind w [] e d b =
        let (r, run, tried) =
          socket_ioq_churn_entry-Tried ops sent interrupts block law little fuel w e d b in
        submit_first w e r run tried
    submit_behind w (f ∷ fs) e d b = (
      (pos 0, (f ∷ fs) ++ (e ∷ []), w),
      refl,
      refl,
      ap (λ t. sent w ++ t) (queued-append w (f ∷ fs) e),
    )

    none_given :
        (w : World) (buf len : ℕ) (vector : List Iov) (iobref : Option ℕ)
        → ops.calloc w ≡ none
        → socket_ioq_new ops little fuel w buf len vector iobref ≡ ok (none, w)
    unfolding socket_ioq_new
    none_given w buf len vector iobref n = rw (socket_ioq_new, n) refl

    -- `socket_submit` on a connected transport, of data in a buffer and at most 14 blocks that cover no address twice, with
    -- a `writev` that sends bytes of the front of its blocks or fails and sends none, an allocator that gives a block
    -- nothing else uses, and rounds for every byte of the message and every interrupt: it returns -1 and changes nothing,
    -- and the allocator has no block, or it returns 0, and what is sent and what waits are together what they were, then the header with the two sizes,
    -- then the data.
    pub socket_submit-Submitted :
        (w : World) (q : List Entry) (buf len : ℕ) (vector : List Iov) (iobref : Option ℕ)
        → length vector ≤ 14
        → Fresh w q buf len vector
        → 12 + (len + iov_length vector) + interrupts w < fuel
        → (r : ℤ × List Entry × World) × (socket_submit ops little fuel true w q buf len vector
              iobref
            ≡ ok r)
          × Submitted w q
              (message_header little (u32 len) (u32 (iov_length vector))
                ++ map (ops.mem w) (places buf len vector))
              r
    unfolding socket_submit
    socket_submit-Submitted w q buf len vector iobref room fresh b =
        elim (Option-cases (ops.calloc w)) [
          | inl n ↦ (
            (negsuc 0, q, w),
            rw (none_given w buf len vector iobref n) refl,
            inl (refl, n, refl, refl),
          )
          | inr ((e, w1), got) ↦
              let (apart, data_kept, queue_kept) = fresh e w1 got in
              let (w', made, s, calm, header, kept) =
                ioq_new w w1 e buf len vector iobref room got in
              let entry = new_entry e buf len vector iobref in
              let size : length (addresses entry.pending_vector) ≡ 12 + (len + iov_length vector) =
                omega (
                  arith,
                  length-append (range e 12) (places buf len vector),
                  length-range e 12,
                  length-append (range buf len) (addresses vector),
                  length-range buf len,
                  length-addresses vector,
                ) in
              let (r, run, z, all) = submit_behind w' q entry apart (omega (arith, size, calm)) in
              let before : queued ops sent interrupts block w' q
                  ≡ queued ops sent interrupts block w q =
                queued_kept ops sent interrupts block law little fuel w w' q (
                  each (λ f h. each (λ a p. kept a p) (addresses f.pending_vector) h) q
                    queue_kept) in
              let data_same =
                map_same (ops.mem w') (ops.mem w) (places buf len vector)
                  (each (λ a p. kept a p) (places buf len vector) data_kept) in
              let parts = map-append (ops.mem w') (range e 12) (places buf len vector) in
              let message : map (ops.mem w') (range e 12 ++ places buf len vector)
                  ≡ message_header little (u32 len) (u32 (iov_length vector))
                    ++ map (ops.mem w) (places buf len vector) =
                cc (parts, header, data_same) in
              (r, rw made run, inr (z, all ∙ cc (s, before, message)))
        ]
