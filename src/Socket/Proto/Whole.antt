-- ===== src/Socket/Proto/Whole.antt =====
-- A message that is all in flight is received in one call.
use lz_lib.Base.{
  ℕ, zero, suc, ◌+◌, ◌<◌, ◌≤◌, ◌≡◌, ◌≢◌, ◌⊎◌, inl, inr, refl, sym, ap, subst, ◌∙◌, Bool, false,
  some, List, [], ◌∷◌, ◌++◌, map, length, length-append, take, drop, ◌==◌, Run, ok, arith,
  Bool-cases,
}
use lz_lib.Base.Int.{ℤ, pos, negsuc, eqb_ℤ}
use lz_lib.ListHead.Seg.{NoDup}
use lz_lib.Socket.{Iov, Reply, moved, failed, eintr, Rwv, paused, after_call, socket_rwv, advance}
use lz_lib.Socket.Vec.{range, addresses, advance-addresses, length-range, Lively}
use lz_lib.Socket.Transfer.{Step, NoDup-drop, length-drop}
use lz_lib.Socket.Streams.{Reads}
use lz_lib.Socket.Proto.{
  Proto, nada, header_coming, header_came, data_coming, data_came, complete, proto_index, Incoming,
  Ops, validate_header, Turn, onward, leave, in_nada, header_read, data_read, in_header_coming,
  await_data, header_valid, in_header_came, in_data_coming, in_data_came, turn, after_turn,
  proto_loop, socket_proto_state_machine,
}
use lz_lib.Socket.Proto.Sound.{places, header_places, stored, Serves, Sound}
use lz_lib.Socket.Proto.Turns.{NoDup-range, append-parts, length-map, Zero, Turned}
use lz_lib.Socket.Proto.Receive.{turn-Turned, Proto-cases, index-le}
use lz_lib.Socket.Proto.Arrive.{Arrived, OnTheWay, socket_proto_state_machine-Arrived}
use lz_lib.Socket.Queue.{message_header}
use lz_lib.Socket.Queue.Message.{length-message_header, validate_header-message_header}

length-take : {A : Type 0} (n : ℕ) (xs : List A) → n ≤ length xs → length (take n xs) ≡ n
length-take zero xs h = refl
length-take (suc n) [] h = absurd (omega arith)
length-take (suc n) (x ∷ xs) h = ap suc (length-take n xs (omega arith))

ok_same : {A : Type 0} {x y : A} → ok x ≡ ok y → x ≡ y
ok_same e = cc e

nada_other : nada ≢ complete
nada_other e = cc e

nada_early : nada ≢ data_came
nada_early e = cc e

module _ {World : Type 0} (ops : Ops World) (in_flight : World → List ℕ)
    (interrupts : World → ℕ) where
  -- With bytes enough in flight `readv` gives at least one or is interrupted, and there is a buffer.
  pub record Gives : Type 0 where
    pub readv :
        (w : World) (vec : List Iov)
        → 0 < length (addresses vec)
        → length (addresses vec) ≤ length (in_flight w)
        → ((n : ℕ) × ((ops.readv w vec).0 ≡ moved (suc n))) ⊎ ((ops.readv w vec).0 ≡ failed eintr)
    pub iobuf_get :
        (w : World) (n : ℕ)
        → (b : ℕ) × (w' : World) × (ops.iobuf_get (ops.malloc w n).1 ≡ some (b, w'))

  module _ (law : Serves ops in_flight interrupts) (gives : Gives) where
    -- Bytes that went to k addresses are no longer in flight.
    fewer :
        (xs : List ℕ) (w w' : World)
        → Reads ops.mem in_flight xs w w'
        → length (in_flight w) ≡ length xs + length (in_flight w')
    fewer xs w w' r =
        ap length r.taken
        ∙ length-append (map (ops.mem w') xs) (in_flight w')
        ∙ ap (λ n. n + length (in_flight w')) (length-map (ops.mem w') xs)

    after_moved :
        (rounds : List Iov → World → Run (Rwv World)) (vec vec' : List Iov) (n : ℕ) (reply : Reply)
        (w : World) (r : Rwv World)
        → reply ≡ moved (suc n)
        → advance (suc n) vec ≡ ok vec'
        → rounds vec' w ≡ ok r
        → after_call ops.readv rounds false vec reply w ≡ ok r
    unfolding after_call
    after_moved rounds vec vec' n reply w r took run go = rw (took, run) go

    read_whole :
        (fuel : ℕ) (vec : List Iov) (w : World)
        → NoDup (addresses vec)
        → Lively vec
        → length (addresses vec) + interrupts w < fuel
        → length (addresses vec) ≤ length (in_flight w)
        → (r : Rwv World) × (socket_rwv ops.readv fuel false vec w ≡ ok r) × (r.ret ≡ pos 0)
    unfolding socket_rwv after_call paused
    read_whole zero vec w d live b k = absurd (omega arith)
    read_whole (suc fuel) [] w d live b k = (paused ops.readv 0 [] w, refl, refl)
    read_whole (suc fuel) (v ∷ vs) w d live b k =
        let xs = addresses (v ∷ vs) in
        let w' = (ops.readv w (v ∷ vs)).1 in
        let some_left : 0 < length xs = omega (
          arith,
          live,
          length-append (range v.base v.len) (addresses vs),
          length-range v.base v.len,
        ) in
        let step = law.readv w (v ∷ vs) d in
        elim (gives.readv w (v ∷ vs) some_left k) [
          | inl (n, took) ↦
              let (inside, m, calm) =
                subst (λ t. Step (Reads ops.mem in_flight) interrupts xs w t w') took step in
              let (vec', run, at, lively) =
                advance-addresses (suc n) (v ∷ vs) (omega arith) inside in
              let len = ap length at ∙ length-drop (suc n) xs in
              let gone = fewer (take (suc n) xs) w w' m in
              let (r, go, whole) =
                read_whole fuel vec' w' (subst NoDup (sym at) (NoDup-drop (suc n) xs d)) lively
                  (omega (arith, len, inside, calm))
                  (omega (arith, len, gone, length-take (suc n) xs inside, k)) in
              (
                r,
                after_moved (socket_rwv ops.readv fuel false) (v ∷ vs) vec' n
                    (ops.readv w (v ∷ vs)).0 w' r took run go,
                whole,
              )
          | inr stopped ↦
              let (m, calm, less) =
                subst (λ t. Step (Reads ops.mem in_flight) interrupts xs w t w') stopped step in
              let (r, go, whole) =
                read_whole fuel (v ∷ vs) w' d live (omega (arith, less refl))
                  (omega (arith, k, fewer [] w w' m)) in
              (r, rw stopped go, whole)
        ]

    -- What is to be read has bytes left.
    abbrev Ready : Proto → Incoming → Type 0
    Ready header_coming i = Lively i.pending_vector
    Ready data_coming i = Lively i.pending_vector × ((n : ℕ) × (i.pending_count ≡ pos n))
    Ready other i = Unit

    abbrev Onward : Turn World → Type 0
    Onward (onward ret i w) = Ready i.state i
    Onward (leave ret i w) = ⊥

    enough_left :
        (xs : List ℕ) (k : ℕ) (w : World) (m : List ℕ)
        → map (ops.mem w) (take k xs) ++ in_flight w ≡ m
        → length xs ≤ length m
        → length (drop k xs) ≤ length (in_flight w)
    enough_left xs k w m sum h =
        let all =
          ap length (sym sum)
          ∙ length-append (map (ops.mem w) (take k xs)) (in_flight w)
          ∙ ap (λ n. n + length (in_flight w)) (length-map (ops.mem w) (take k xs)) in
        omega (arith, all, h, take_drop k xs)
      where
        take_drop : (k : ℕ) (xs : List ℕ) → length (take k xs) + length (drop k xs) ≡ length xs
        take_drop zero xs = omega arith
        take_drop (suc k) [] = omega arith
        take_drop (suc k) (x ∷ xs) = omega (arith, take_drop k xs)

    module _ (little : Bool) (header body : List ℕ) (l p fuel : ℕ) where
      header_valid-Onward :
          (i : Incoming) (w : World) (l p : ℕ)
          → 0 < l
          → Onward (header_valid ops little fuel i l p w)
      unfolding header_valid await_data
      header_valid-Onward i w l p h = elim (Bool-cases (p == 0)) [
        | inl z ↦ rw z (h, (1, refl))
        | inr n ↦ let (b, w', got) = gives.iobuf_get w l in rw (n, got) (h, (2, refl))
      ]

      turn-Onward :
          (s : Proto) (ret : ℤ) (i : Incoming) (w : World) (t : Turn World)
          → i.state ≡ s
          → s ≢ complete
          → Sound ops in_flight interrupts header body l p s i w
          → Ready s i
          → length header ≡ 12
          → validate_header little header ≡ ok (some (l, p))
          → 0 < l
          → l + p ≤ length body
          → 12 + l + p + interrupts w < fuel
          → turn ops little fuel ret i w ≡ ok t
          → Onward t
      unfolding turn in_nada in_header_came in_header_coming header_read in_data_coming data_read
          in_data_came
      turn-Onward nada ret i w t at go sound ready len valid some_bytes rest b run =
          let e : ok t ≡ ok (in_nada ops little fuel ret i w) = sym run ∙ rw at refl in
          subst Onward (sym (ok_same e)) (omega arith)
      turn-Onward header_coming ret i w t at go (free, (k, left, sum)) ready len valid some_bytes
            rest b run =
          let xs = header_places ops in_flight interrupts in
          let long = length-range ops.header_at 12 in
          let size = length-append header body in
          let few = enough_left xs k w (header ++ body) sum (omega (arith, long, size, len)) in
          let pend = ap length left in
          let (r, done, z) =
            read_whole fuel i.pending_vector w
              (subst NoDup (sym left) (NoDup-drop k xs (NoDup-range ops.header_at 12))) ready
              (omega (arith, pend, length-drop k xs, long)) (omega (arith, pend, few)) in
          let e : ok t ≡ ok (header_read ops little fuel i r) = sym run ∙ rw (at, done) refl in
          subst Onward (sym (ok_same e)) (rw z tt)
      turn-Onward header_came ret i w t at go (free, sum) ready len valid some_bytes rest b run =
          let header_now =
            stored ops in_flight interrupts w (header_places ops in_flight interrupts) in
          let (same, behind) = append-parts header_now header (in_flight w) body sum (
            length-map (ops.mem w) (range ops.header_at 12)
            ∙ length-range ops.header_at 12
            ∙ sym len) in
          let taken : validate_header little header_now ≡ ok (some (l, p)) =
            ap (validate_header little) same ∙ valid in
          let e : ok t ≡ ok (header_valid ops little fuel i l p w) =
            sym run ∙ ground (arith, at, taken) in
          subst Onward (sym (ok_same e)) (header_valid-Onward i w l p some_bytes)
      turn-Onward data_coming ret i w t at go (placed, d, (k, left, sum)) (live, (n, count)) len
            valid some_bytes rest b run =
          let xs = places i l p in
          let long = length-append (range i.hdr_p l) (range i.buf_p p) in
          let few =
            enough_left xs k w body sum
              (omega (arith, long, length-range i.hdr_p l, length-range i.buf_p p, rest)) in
          let pend = ap length left in
          let (r, done, z) =
            read_whole fuel i.pending_vector w (subst NoDup (sym left) (NoDup-drop k xs d)) live
              (omega (
                arith,
                pend,
                length-drop k xs,
                long,
                length-range i.hdr_p l,
                length-range i.buf_p p,
              ))
              (omega (arith, pend, few)) in
          let e : ok t ≡ ok (data_read ops little fuel i r) = sym run ∙ rw (at, count, done) refl in
          subst Onward (sym (ok_same e)) (rw z tt)
      turn-Onward data_came ret i w t at go sound ready len valid some_bytes rest b run =
          let e : ok t ≡ ok (in_data_came ops little fuel ret i w) = sym run ∙ rw at refl in
          subst Onward (sym (ok_same e)) tt
      turn-Onward complete ret i w t at go sound ready len valid some_bytes rest b run =
          absurd (go refl)

      after_turn_whole :
          (rounds : ℤ → Incoming → World → Run (ℤ × Incoming × World)) (s : Proto) (w : World)
          (t : Turn World) (out : ℤ × Incoming × World)
          → Turned ops in_flight interrupts law little header body l p fuel s w t
          → Onward t
          → ((ret' : ℤ) (i' : Incoming) (w' : World)
              → Sound ops in_flight interrupts header body l p i'.state i' w'
              → Ready i'.state i'
              → Zero i'.state ret'
              → proto_index i'.state ≡ suc (proto_index s)
              → interrupts w' ≤ interrupts w
              → rounds ret' i' w' ≡ ok out
              → out.1.state ≡ complete)
          → after_turn ops little fuel rounds t ≡ ok out
          → out.1.state ≡ complete
      unfolding after_turn
      after_turn_whole rounds s w (onward ret' i' w') out (sound, next, z, calm) ready ih run =
          ih ret' i' w' sound ready z next calm run
      after_turn_whole rounds s w (leave ret' i' w') out turned ready ih run = absurd ready

      loop_whole :
          (n : ℕ) (previous ret : ℤ) (i : Incoming) (w : World) (out : ℤ × Incoming × World)
          → Sound ops in_flight interrupts header body l p i.state i w
          → Ready i.state i
          → Zero i.state ret
          → 6 ≤ n + proto_index i.state
          → eqb_ℤ previous (pos (proto_index i.state)) ≡ false
          → length header ≡ 12
          → validate_header little header ≡ ok (some (l, p))
          → p ≤ 131072
          → 0 < l
          → l + p ≤ length body
          → 12 + l + p + interrupts w < fuel
          → proto_loop ops little fuel n previous ret i w ≡ ok out
          → out.1.state ≡ complete
      unfolding proto_loop after_turn
      loop_whole zero previous ret i w out sound ready z k other len valid small some_bytes rest b
            run =
          absurd (
            omega
              (arith, index-le ops in_flight interrupts law little header body l p fuel i.state))
      loop_whole (suc n) previous ret i w out sound ready z k other len valid small some_bytes rest
            b run =
          elim (Proto-cases ops in_flight interrupts law little header body l p fuel i.state) [
            | inl at ↦
                let e : ok (ret, i, w) ≡ ok out = sym (ground (arith, at)) ∙ run in
                ap (λ o. o.1.state) (sym (ok_same e)) ∙ at
            | inr (open_yet, early) ↦
                let (t, go, turned) =
                  turn-Turned ops in_flight interrupts law little header body l p fuel i.state ret i
                    w refl open_yet sound z len valid small b in
                let next =
                  turn-Onward i.state ret i w t refl open_yet sound ready len valid some_bytes rest
                    b go in
                let run' : after_turn ops little fuel
                      (proto_loop ops little fuel n (pos (proto_index i.state))) t
                    ≡ ok out =
                  sym (rw (early, other, go) refl) ∙ run in
                after_turn_whole (proto_loop ops little fuel n (pos (proto_index i.state))) i.state
                  w t out turned next
                  (λ ret' i' w' sound' ready' z' step calm go'.
                    loop_whole n (pos (proto_index i.state)) ret' i' w' out sound' ready' z'
                      (omega (arith, step)) (ground (arith, step)) len valid small some_bytes rest
                      (omega arith) go')
                  run'
          ]

    -- A message that a transport sends, of 1 to 1048576 bytes of header data and at most 131072 bytes of payload, all in
    -- flight to a transport that is at the start of a message, on a target of either byte order, with a `readv` that takes
    -- bytes in order, at least one in each call while as many are in flight as it is to fill, unless it is interrupted, an
    -- allocator and a pool that give memory nothing else uses, and enough rounds for the bytes and the interrupts: one call
    -- of `socket_proto_state_machine` returns 0, and the message is complete and in memory as it was sent.
    pub socket_proto_state_machine-complete :
        (sender little : Bool) (buf payload more : List ℕ) (fuel : ℕ) (i : Incoming) (w : World)
        → 0 < length buf
        → length buf ≤ 1048576
        → length payload ≤ 131072
        → 12 + length buf + length payload + interrupts w < fuel
        → i.state ≡ nada
        → OnTheWay ops in_flight interrupts sender buf payload more i w
        → (i' : Incoming) × (w' : World) × (socket_proto_state_machine ops little fuel i w
            ≡ ok (pos 0, i', w'))
          × (i'.state ≡ complete)
          × Arrived ops in_flight interrupts buf payload more i' w'
    unfolding socket_proto_state_machine
    socket_proto_state_machine-complete sender little buf payload more fuel i w some_bytes a b
          enough at sound =
        let l = length buf in
        let p = length payload in
        let header = message_header sender l p in
        let body = buf ++ (payload ++ more) in
        let (ret, i', w', run, ends, calm) =
          socket_proto_state_machine-Arrived ops in_flight interrupts sender little buf payload more
            fuel i w law some_bytes a b enough (λ e. nada_other (sym at ∙ e))
            (λ e. nada_early (sym at ∙ e)) sound in
        let done =
          loop_whole little header body l p fuel 6 (negsuc 0) (negsuc 0) i w (ret, i', w') sound
            (subst (λ s. Ready s i) (sym at) tt) (subst (λ s. Zero s (negsuc 0)) (sym at) tt)
            (omega arith) (ap (λ s. eqb_ℤ (negsuc 0) (pos (proto_index s))) at)
            (length-message_header sender l p)
            (validate_header-message_header sender little l p some_bytes a b) b some_bytes
            (omega (arith, length-append buf (payload ++ more), length-append payload more)) enough
            run in
        elim ends [
          | inl (z, done', here) ↦ (i', w', run ∙ ap (λ r. ok (r, i', w')) z, done, here)
          | inr (z, yet, here) ↦ absurd (yet done)
        ]
