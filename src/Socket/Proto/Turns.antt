-- ===== src/Socket/Proto/Turns.antt =====
-- A round of the state machine keeps what holds of a message.
use lz_lib.Base.{
  ℕ, zero, suc, ◌+◌, ◌<◌, ◌≤◌, ◌≡◌, ◌≢◌, ◌⊎◌, inl, inr, refl, sym, ap, subst, ◌∙◌, Bool, true,
  false, none, List, [], ◌∷◌, ◌++◌, All, map, length, length-append, take, drop, ok, arith,
  Bool-cases,
}
use mathlib.Core.List.{append_assoc}
use lz_lib.Base.Int.{ℤ, pos, negsuc, eqb_ℤ}
use lz_lib.ListHead.Seg.{NoDup}
use lz_lib.Socket.{Iov, Rwv}
use lz_lib.Socket.Vec.{range, addresses, length-range}
use lz_lib.Socket.Transfer.{
  NoDup-drop, Transfers, Ends, socket_rwv-Ends, length-drop, take-add, drop-add, NoDup-take,
  all_moved,
}
use lz_lib.Socket.Streams.{Reads, Reads-Transfers, Reads-kept, NoDup-Disjoint, map-append}
use lz_lib.Socket.Proto.{
  Proto, header_coming, data_coming, data_came, complete, proto_index, Incoming, Ops, Turn, onward,
  leave, header_read, data_read, in_header_coming, in_data_coming,
}
use lz_lib.Socket.Proto.Sound.{places, header_places, stored, Serves, Placed, Sound}

take-whole : {A : Type 0} (n : ℕ) (xs : List A) → drop n xs ≡ [] → take n xs ≡ xs
take-whole zero xs e = sym e
take-whole (suc n) [] e = refl
take-whole (suc n) (x ∷ xs) e = ap (λ t. x ∷ t) (take-whole n xs e)

pub range-above : (a base n : ℕ) → a < base → All (λ y. y ≢ a) (range base n)
range-above a base zero h = tt
range-above a base (suc n) h = (λ e. omega (arith, e), range-above a (base + 1) n (omega arith))

pub NoDup-range : (base n : ℕ) → NoDup (range base n)
NoDup-range base zero = tt
NoDup-range base (suc n) = (range-above base (base + 1) n (omega arith), NoDup-range (base + 1) n)

module _ {World : Type 0} (ops : Ops World) (in_flight : World → List ℕ)
    (interrupts : World → ℕ) where
  -- What is stored of the places `xs`, and what is in flight, make the bytes `m`; `vec` is what is left to fill.
  abbrev Filling : List ℕ → List ℕ → List Iov → World → Type 0
  Filling xs m vec w =
      (k : ℕ) × (addresses vec ≡ drop k xs)
      × (stored ops in_flight interrupts w (take k xs) ++ in_flight w ≡ m)

  -- `__socket_readv` fills more, and all if it returns 0.
  read_on :
      (xs m : List ℕ) (vec : List Iov) (w : World) (r : Rwv World)
      → NoDup xs
      → Filling xs m vec w
      → Ends (Reads ops.mem in_flight) interrupts vec w r
      → Filling xs m r.pending r.world
        × (r.ret ≡ pos 0 → stored ops in_flight interrupts r.world xs ++ in_flight r.world ≡ m)
  read_on xs m vec w r d (k, at, sum) e =
      let c = e.count in
      let parts = take-add k c xs in
      let moves : Reads ops.mem in_flight (take c (drop k xs)) w r.world =
        subst (λ ys. Reads ops.mem in_flight (take c ys) w r.world) at e.moves in
      let kept = Reads-kept ops.mem in_flight (take k xs) (take c (drop k xs)) w r.world moves (
        NoDup-Disjoint (take k xs) (take c (drop k xs))
          (subst NoDup parts (NoDup-take (k + c) xs d))) in
      let now : stored ops in_flight interrupts r.world (take (k + c) xs) ++ in_flight r.world ≡ m =
        ap (λ t. map (ops.mem r.world) t ++ in_flight r.world) parts
        ∙ ap (λ t. t ++ in_flight r.world)
            (map-append (ops.mem r.world) (take k xs) (take c (drop k xs)))
        ∙ append_assoc (map (ops.mem r.world) (take k xs))
            (map (ops.mem r.world) (take c (drop k xs))) (in_flight r.world)
        ∙ ap (λ t. t ++ (map (ops.mem r.world) (take c (drop k xs)) ++ in_flight r.world)) kept
        ∙ ap (λ t. map (ops.mem w) (take k xs) ++ t) (sym moves.taken)
        ∙ sum in
      let left : addresses r.pending ≡ drop (k + c) xs =
        e.left ∙ ap (drop c) at ∙ sym (drop-add k c xs) in
      (
        (k + c, left, now),
        λ z.
            subst (λ ys. map (ops.mem r.world) ys ++ in_flight r.world ≡ m)
              (take-whole (k + c) xs (sym left ∙ all_moved r.pending r.ret e.value z)) now,
      )

pub append-parts :
    {A : Type 0} (xs zs ys us : List A)
    → xs ++ ys ≡ zs ++ us
    → length xs ≡ length zs
    → (xs ≡ zs) × (ys ≡ us)
append-parts [] [] ys us e n = (refl, e)
append-parts [] (z ∷ zs) ys us e n = absurd (omega (arith, n))
append-parts (x ∷ xs) [] ys us e n = absurd (omega (arith, n))
append-parts (x ∷ xs) (z ∷ zs) ys us e n =
    let first : x ≡ z = cc e in
    let rest : xs ++ ys ≡ zs ++ us = cc e in
    let (f, g) = append-parts xs zs ys us rest (omega (arith, n)) in (cc (first, f), g)

pub length-map : (f : ℕ → ℕ) (xs : List ℕ) → length (map f xs) ≡ length xs
length-map f [] = refl
length-map f (x ∷ xs) = ap suc (length-map f xs)

-- The return value is 0 once all data came.
abbrev pub Zero : Proto → ℤ → Type 0
Zero data_came ret = ret ≡ pos 0
Zero complete ret = ret ≡ pos 0
Zero other ret = Unit

pub eqb→eq : (a b : ℤ) → eqb_ℤ a b ≡ true → a ≡ b
eqb→eq a b e = ground arith

pub eqb→ne : (a b : ℤ) → eqb_ℤ a b ≡ false → a ≢ b
eqb→ne a b e f = ground arith

ℤ-cases : (a : ℤ) → ((n : ℕ) × (a ≡ negsuc n)) ⊎ ((n : ℕ) × (a ≡ pos n))
ℤ-cases (pos n) = inr (n, refl)
ℤ-cases (negsuc n) = inl (n, refl)

module _ {World : Type 0} (ops : Ops World) (in_flight : World → List ℕ) (interrupts : World → ℕ)
    (law : Serves ops in_flight interrupts) (little : Bool) (header body : List ℕ) (l p : ℕ)
    (fuel : ℕ) where
  -- A round either goes on to the next state, or leaves in the same state with a value other than 0.
  abbrev pub Turned : Proto → World → Turn World → Type 0
  Turned s w (onward ret i' w') =
      Sound ops in_flight interrupts header body l p i'.state i' w'
      × (proto_index i'.state ≡ suc (proto_index s))
      × Zero i'.state ret
      × (interrupts w' ≤ interrupts w)
  Turned s w (leave ret i' w') =
      Sound ops in_flight interrupts header body l p i'.state i' w'
      × (i'.state ≡ s)
      × (ret ≢ pos 0)
      × (interrupts w' ≤ interrupts w)

  moves : Transfers (Reads ops.mem in_flight) interrupts ops.readv
  moves = Reads-Transfers ops.mem in_flight interrupts ops.readv law.readv

  header_read-Turned :
      (i : Incoming) (w : World) (r : Rwv World)
      → i.state ≡ header_coming
      → i.iobuf ≡ none
      → Filling ops in_flight interrupts
          (header_places ops in_flight interrupts)
          (header ++ body)
          r.pending
          r.world
      → (r.ret ≡ pos 0
          → stored ops in_flight interrupts r.world (header_places ops in_flight interrupts)
              ++ in_flight r.world
            ≡ header ++ body)
      → interrupts r.world ≤ interrupts w
      → Turned header_coming w (header_read ops little fuel i r)
  unfolding header_read
  header_read-Turned i w r at free filling all calm = elim (Bool-cases (eqb_ℤ r.ret (pos 0))) [
    | inl z ↦ rw z ((free, all (eqb→eq r.ret (pos 0) z)), refl, tt, calm)
    | inr z ↦ rw z (
      subst
          (λ s.
            Sound ops in_flight interrupts header body l p s
              (record i { pending_vector = r.pending }) r.world)
          (sym at) (free, filling),
      at,
      eqb→ne r.ret (pos 0) z,
      calm,
    )
  ]

  pub header_coming-Turned :
      (i : Incoming) (w : World)
      → i.state ≡ header_coming
      → Sound ops in_flight interrupts header body l p header_coming i w
      → 12 + interrupts w < fuel
      → (t : Turn World) × (in_header_coming ops little fuel i w ≡ ok t) × Turned header_coming w t
  unfolding in_header_coming
  header_coming-Turned i w at (free, filling) b =
      let xs = header_places ops in_flight interrupts in
      let d = NoDup-range ops.header_at 12 in
      let (k, left, sum) = filling in
      let small : length (addresses i.pending_vector) ≤ 12 =
        omega (arith, ap length left, length-drop k xs, length-range ops.header_at 12) in
      let (r, run, ends) =
        socket_rwv-Ends (Reads ops.mem in_flight) interrupts ops.readv moves fuel false
          i.pending_vector w (subst NoDup (sym left) (NoDup-drop k xs d)) (omega arith) in
      let (filling', all) =
        read_on ops in_flight interrupts xs (header ++ body) i.pending_vector w r d filling ends in
      (
        header_read ops little fuel i r,
        rw run refl,
        header_read-Turned i w r at free filling' all ends.calm,
      )

  data_read-Turned :
      (i : Incoming) (w : World) (r : Rwv World)
      → i.state ≡ data_coming
      → Placed ops in_flight interrupts header body l p i
      → NoDup (places i l p)
      → Filling ops in_flight interrupts (places i l p) body r.pending r.world
      → (r.ret ≡ pos 0
          → stored ops in_flight interrupts r.world (places i l p) ++ in_flight r.world ≡ body)
      → interrupts r.world ≤ interrupts w
      → Turned data_coming w (data_read ops little fuel i r)
  unfolding data_read
  data_read-Turned i w r at placed d filling all calm = elim (Bool-cases (eqb_ℤ r.ret (pos 0))) [
    | inl z ↦ rw z ((placed, all (eqb→eq r.ret (pos 0) z)), refl, eqb→eq r.ret (pos 0) z, calm)
    | inr z ↦ rw z (
      subst
          (λ s.
            Sound ops in_flight interrupts header body l p s
              (record i { pending_vector = r.pending; pending_count = r.ret }) r.world)
          (sym at) (placed, d, filling),
      at,
      eqb→ne r.ret (pos 0) z,
      calm,
    )
  ]

  pub data_coming-Turned :
      (i : Incoming) (w : World)
      → i.state ≡ data_coming
      → Sound ops in_flight interrupts header body l p data_coming i w
      → l + p + interrupts w < fuel
      → (t : Turn World) × (in_data_coming ops little fuel i w ≡ ok t) × Turned data_coming w t
  unfolding in_data_coming
  data_coming-Turned i w at (placed, d, filling) b = elim (ℤ-cases i.pending_count) [
    | inl (n, e) ↦ (
      leave (negsuc 0) i w,
      rw e refl,
      (
        subst (λ s. Sound ops in_flight interrupts header body l p s i w) (sym at)
            (placed, d, filling),
        at,
        (λ f. cc f),
        omega arith,
      ),
    )
    | inr (n, e) ↦
        let xs = places i l p in
        let (k, left, sum) = filling in
        let small : length (addresses i.pending_vector) ≤ l + p = omega (
          arith,
          ap length left,
          length-drop k xs,
          length-append (range i.hdr_p l) (range i.buf_p p),
          length-range i.hdr_p l,
          length-range i.buf_p p,
        ) in
        let (r, run, ends) =
          socket_rwv-Ends (Reads ops.mem in_flight) interrupts ops.readv moves fuel false
            i.pending_vector w (subst NoDup (sym left) (NoDup-drop k xs d)) (omega arith) in
        let (filling', all) =
          read_on ops in_flight interrupts xs body i.pending_vector w r d filling ends in
        (
          data_read ops little fuel i r,
          rw (e, run) refl,
          data_read-Turned i w r at placed d filling' all ends.calm,
        )
  ]
