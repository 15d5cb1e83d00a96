-- ===== src/Socket/Queue/Write.antt =====
-- What a try to write an entry of the queue does.
use lz_lib.Base.{
  everywhere, ℕ, zero, suc, ◌+◌, ◌<◌, ◌≤◌, ◌≡◌, ◌≢◌, ◌⊎◌, inl, inr, refl, sym, ap, ◌∙◌, Bool, true,
  Option, none, some, List, [], ◌∷◌, ◌++◌, All, map, length, take, drop, ok, arith, Bool-cases,
  Option-cases,
}
use mathlib.Core.List.{append_assoc, append-nil}
use lz_lib.Base.Int.{ℤ, pos, negsuc, eqb_ℤ}
use lz_lib.ListHead.Seg.{NoDup}
use lz_lib.Socket.{Iov, Rwv}
use lz_lib.Socket.Vec.{addresses}
use lz_lib.Socket.Transfer.{Transfers, Step, Ends, socket_rwv-Ends, all_moved}
use lz_lib.Socket.Streams.{Writes, Writes-Transfers, map-append, map_same}
use lz_lib.Socket.Proto.Turns.{eqb→eq, eqb→ne}
use lz_lib.Socket.Queue.{Entry, Ops, socket_ioq_entry_free, entry_written, socket_ioq_churn_entry}

take-drop : {A : Type 0} (n : ℕ) (xs : List A) → take n xs ++ drop n xs ≡ xs
take-drop zero xs = refl
take-drop (suc n) [] = refl
take-drop (suc n) (x ∷ xs) = ap (λ t. x ∷ t) (take-drop n xs)

count_cases : (z : ℤ) → ((n : ℕ) × (z ≡ negsuc n)) ⊎ ((n : ℕ) × (z ≡ pos n))
count_cases (pos n) = inr (n, refl)
count_cases (negsuc n) = inl (n, refl)

module _ {World : Type 0} (ops : Ops World) (sent : World → List ℕ) (interrupts : World → ℕ)
    (block : ℕ → List ℕ) where
  -- What the queue relies on: `writev` sends the bytes of its blocks in order and changes no memory; `free` changes no
  -- memory but the block that it frees, and giving a reference back changes none.
  pub record Sends : Type 0 where
    pub writev :
        (w : World) (vec : List Iov)
        → NoDup (addresses vec)
        → Step
            (Writes ops.mem sent)
            interrupts
            (addresses vec)
            w
            (ops.writev w vec).0
            (ops.writev w vec).1
    pub free :
        (w : World) (p : ℕ)
        → (sent (ops.free w p) ≡ sent w)
          × (interrupts (ops.free w p) ≤ interrupts w)
          × ((a : ℕ) → All (λ x. x ≢ a) (block p) → ops.mem (ops.free w p) a ≡ ops.mem w a)
    pub iobref_unref :
        (w : World) (b : ℕ)
        → (sent (ops.iobref_unref w b) ≡ sent w)
          × (interrupts (ops.iobref_unref w b) ≤ interrupts w)
          × ((a : ℕ) → ops.mem (ops.iobref_unref w b) a ≡ ops.mem w a)
    pub select_out :
        (w : World) (on : Bool)
        → (sent (ops.select_out w on) ≡ sent w)
          × ((a : ℕ) → ops.mem (ops.select_out w on) a ≡ ops.mem w a)

  abbrev pub bytes : World → Entry → List ℕ
  bytes w e = map (ops.mem w) (addresses e.pending_vector)

  -- The bytes that wait, in the order of the queue.
  abbrev pub queued : World → List Entry → List ℕ
  queued w [] = []
  queued w (e ∷ es) = bytes w e ++ queued w es

  abbrev pub Outside : Entry → Entry → Type 0
  Outside e f =
      All (λ a. All (λ x. x ≢ a) (block e.buf) × All (λ x. x ≢ a) (block e.id))
        (addresses f.pending_vector)

  -- Each entry covers no address twice, and what is freed with an entry is not used by those behind it.
  abbrev pub Separate : List Entry → Type 0
  Separate [] = Unit
  Separate (e ∷ es) = NoDup (addresses e.pending_vector) × All (λ f. Outside e f) es × Separate es

  -- What a try to write an entry gives.
  abbrev pub Tried : Entry → World → ℤ × Option Entry × World → Type 0
  Tried e w (ret, none, w') =
      (ret ≡ pos 0)
      × (sent w' ≡ sent w ++ bytes w e)
      × ((a : ℕ)
          → All (λ x. x ≢ a) (block e.buf)
          → All (λ x. x ≢ a) (block e.id)
          → ops.mem w' a ≡ ops.mem w a)
      × (interrupts w' ≤ interrupts w)
  Tried e w (ret, some e', w') =
      (ret ≢ pos 0)
      × (sent w' ++ bytes w' e' ≡ sent w ++ bytes w e)
      × ((a : ℕ) → ops.mem w' a ≡ ops.mem w a)
      × ((c : ℕ) × (addresses e'.pending_vector ≡ drop c (addresses e.pending_vector)))
      × (e'.buf ≡ e.buf)
      × (e'.id ≡ e.id)

  module _ (law : Sends) (little : Bool) (fuel : ℕ) where
    transfers : Transfers (Writes ops.mem sent) interrupts ops.writev
    transfers = Writes-Transfers ops.mem sent interrupts ops.writev law.writev

    entry_free-kept :
        (w : World) (e : Entry)
        → (sent (socket_ioq_entry_free ops little fuel w e) ≡ sent w)
          × ((a : ℕ)
              → All (λ x. x ≢ a) (block e.buf)
              → All (λ x. x ≢ a) (block e.id)
              → ops.mem (socket_ioq_entry_free ops little fuel w e) a ≡ ops.mem w a)
          × (interrupts (socket_ioq_entry_free ops little fuel w e) ≤ interrupts w)
    unfolding socket_ioq_entry_free
    entry_free-kept w e = elim (Option-cases e.iobref) [
      | inl n ↦
          let one = law.free w e.buf in
          let two = law.free (ops.free w e.buf) e.id in
          rw n (two.0 ∙ one.0, (λ a h k. two.2 a k ∙ one.2 a h), omega (arith, one.1, two.1))
      | inr (b, n) ↦
          let first = law.iobref_unref w b in
          let one = law.free (ops.iobref_unref w b) e.buf in
          let two = law.free (ops.free (ops.iobref_unref w b) e.buf) e.id in
          rw n (
            two.0 ∙ one.0 ∙ first.0,
            (λ a h k. two.2 a k ∙ one.2 a h ∙ first.2 a),
            omega (arith, first.1, one.1, two.1),
          )
    ]

    entry_written-Tried :
        (e : Entry) (w : World) (r : Rwv World)
        → Ends (Writes ops.mem sent) interrupts e.pending_vector w r
        → Tried e w (entry_written ops little fuel e r)
    unfolding entry_written
    entry_written-Tried e w r ends =
        let xs = addresses e.pending_vector in
        let c = ends.count in
        let same =
          map_same (ops.mem r.world) (ops.mem w) (drop c xs)
            (everywhere (λ a. ends.moves.frame a) (drop c xs)) in
        let all : sent r.world ++ map (ops.mem r.world) (addresses r.pending)
            ≡ sent w ++ map (ops.mem w) xs =
          ap (λ t. sent r.world ++ map (ops.mem r.world) t) ends.left
          ∙ ap (λ t. sent r.world ++ t) same
          ∙ ap (λ t. t ++ map (ops.mem w) (drop c xs)) ends.moves.given
          ∙ append_assoc (sent w) (map (ops.mem w) (take c xs)) (map (ops.mem w) (drop c xs))
          ∙ ap (λ t. sent w ++ t)
              (sym (map-append (ops.mem w) (take c xs) (drop c xs))
                ∙ ap (map (ops.mem w)) (take-drop c xs)) in
        elim (Bool-cases (eqb_ℤ r.ret (pos 0))) [
          | inl z ↦
              let zero : r.ret ≡ pos 0 = eqb→eq r.ret (pos 0) z in
              let e' = record e { pending_vector = r.pending; pending_count = r.ret } in
              let (kept, frame, calm) = entry_free-kept r.world e' in
              let none_left : addresses r.pending ≡ [] =
                all_moved r.pending r.ret ends.value zero in
              rw z (
                zero,
                kept
                    ∙ sym (append-nil (sent r.world))
                    ∙ ap (λ t. sent r.world ++ map (ops.mem r.world) t) (sym none_left)
                    ∙ all,
                (λ a h k. frame a h k ∙ ends.moves.frame a),
                omega (arith, calm, ends.calm),
              )
          | inr z ↦
              rw z
                (eqb→ne r.ret (pos 0) z, all, (λ a. ends.moves.frame a), (c, ends.left), refl, refl)
        ]

    pub socket_ioq_churn_entry-Tried :
        (w : World) (e : Entry)
        → NoDup (addresses e.pending_vector)
        → length (addresses e.pending_vector) + interrupts w < fuel
        → (r : ℤ × Option Entry × World) × (socket_ioq_churn_entry ops little fuel w e ≡ ok r)
          × Tried e w r
    unfolding socket_ioq_churn_entry
    socket_ioq_churn_entry-Tried w e d b = elim (count_cases e.pending_count) [
      | inl (n, z) ↦ (
        (negsuc 0, some e, w),
        rw z refl,
        (eqb→ne (negsuc 0) (pos 0) refl, refl, (λ a. refl), (0, refl), refl, refl),
      )
      | inr (n, z) ↦
          let (r, run, ends) =
            socket_rwv-Ends (Writes ops.mem sent) interrupts ops.writev transfers fuel true
              e.pending_vector w d b in
          (entry_written ops little fuel e r, rw (z, run) refl, entry_written-Tried e w r ends)
    ]
