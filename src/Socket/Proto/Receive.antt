-- ===== src/Socket/Proto/Receive.antt =====
-- A call of the state machine, on a message that comes in piece by piece.
use lz_lib.Base.{
  ℕ, zero, suc, ◌+◌, ◌<◌, ◌≤◌, ◌≡◌, ◌≢◌, ◌⊎◌, inl, inr, refl, sym, ap, subst, ◌∙◌, Bool, false,
  none, some, List, [], ◌∷◌, ◌++◌, length, ◌==◌, if◌then◌else◌, Run, ok, arith, Bool-cases,
  Option-cases,
}
use mathlib.Core.List.{append-nil}
use lz_lib.Base.Int.{ℤ, pos, eqb_ℤ}
use lz_lib.ListHead.Seg.{NoDup}
use lz_lib.Socket.Vec.{range, addresses, length-range}
use lz_lib.Socket.Proto.{
  Proto, nada, header_coming, header_came, data_coming, data_came, complete, proto_index, Incoming,
  Ops, validate_header, Turn, onward, leave, in_nada, await_data, header_valid, in_header_came,
  in_data_came, turn, after_turn, proto_loop,
}
use lz_lib.Socket.Proto.Sound.{header_places, stored, Serves, Sound}
use lz_lib.Socket.Proto.Turns.{
  NoDup-range, append-parts, length-map, Zero, Turned, header_coming-Turned, data_coming-Turned,
}

module _ {World : Type 0} (ops : Ops World) (in_flight : World → List ℕ) (interrupts : World → ℕ)
    (law : Serves ops in_flight interrupts) (little : Bool) (header body : List ℕ)
    (l p fuel : ℕ) where
  header_valid-Turned :
      (i : Incoming) (w : World)
      → i.state ≡ header_came
      → i.iobuf ≡ none
      → stored ops in_flight interrupts w (header_places ops in_flight interrupts) ++ in_flight w
        ≡ header ++ body
      → in_flight w ≡ body
      → p ≤ 131072
      → Turned ops in_flight interrupts law little header body l p fuel header_came w
          (header_valid ops little fuel i l p w)
  unfolding header_valid await_data
  header_valid-Turned i w at free sum rest small =
      let got = law.malloc w l in
      let q = (ops.malloc w l).0 in
      let w' = (ops.malloc w l).1 in
      elim (Bool-cases (p == 0)) [
        | inl z ↦
            let none_left : p ≡ 0 = ground arith in
            let alone : addresses (record { base = q; len = l } ∷ [])
                ≡ range q l ++ range i.buf_p p =
              rw none_left refl in
            rw z (
              (
                (refl, refl, free ∙ ap (λ b. if b then none else some i.buf_p) (sym z)),
                subst NoDup alone (rw (append-nil (range q l)) (NoDup-range q l)),
                (0, alone, got.0 ∙ rest),
              ),
              refl,
              tt,
              got.1,
            )
        | inr z ↦ elim (Option-cases (ops.iobuf_get w')) [
          | inl e ↦
              rw (z, e)
                (
                  subst
                      (λ s.
                        Sound ops in_flight interrupts header body l p s
                          (record i { hdrlen = l; buflen = p; hdr_p = q }) w')
                      (sym at)
                      (
                        free,
                        ap (λ t. t ++ in_flight w') got.2
                            ∙ ap
                                (λ t.
                                  stored ops in_flight interrupts w
                                    (header_places ops in_flight interrupts)
                                  ++ t)
                                got.0
                            ∙ sum,
                      ),
                  at,
                  (λ f. cc f),
                  got.1,
                )
          | inr (g, e) ↦
              let b = g.0 in
              let w'' = g.1 in
              let more = law.iobuf_get w w'' l b p e small in
              let both : addresses
                    (record { base = q; len = l } ∷ (record { base = b; len = p } ∷ []))
                  ≡ range q l ++ range b p =
                ap (λ t. range q l ++ t) (append-nil (range b p)) in
              rw (z, e)
                (
                  (
                    (refl, refl, ap (λ c. if c then none else some b) (sym z)),
                    more.2,
                    (0, both, more.0 ∙ rest),
                  ),
                  refl,
                  tt,
                  more.1,
                )
        ]
      ]

  header_came-Turned :
      (i : Incoming) (w : World)
      → i.state ≡ header_came
      → Sound ops in_flight interrupts header body l p header_came i w
      → length header ≡ 12
      → validate_header little header ≡ ok (some (l, p))
      → p ≤ 131072
      → (t : Turn World) × (in_header_came ops little fuel i w ≡ ok t)
        × Turned ops in_flight interrupts law little header body l p fuel header_came w t
  unfolding in_header_came
  header_came-Turned i w at (free, sum) len valid small =
      let bytes = stored ops in_flight interrupts w (header_places ops in_flight interrupts) in
      let (same, rest) = append-parts bytes header (in_flight w) body sum (
        length-map (ops.mem w) (range ops.header_at 12)
        ∙ length-range ops.header_at 12
        ∙ sym len) in
      let run : validate_header little bytes ≡ ok (some (l, p)) =
        ap (validate_header little) same ∙ valid in
      (
        header_valid ops little fuel i l p w,
        ground (arith, run),
        header_valid-Turned i w at free sum rest small,
      )

  pub turn-Turned :
      (s : Proto) (ret : ℤ) (i : Incoming) (w : World)
      → i.state ≡ s
      → s ≢ complete
      → Sound ops in_flight interrupts header body l p s i w
      → Zero s ret
      → length header ≡ 12
      → validate_header little header ≡ ok (some (l, p))
      → p ≤ 131072
      → 12 + l + p + interrupts w < fuel
      → (t : Turn World) × (turn ops little fuel ret i w ≡ ok t)
        × Turned ops in_flight interrupts law little header body l p fuel s w t
  unfolding turn in_nada in_data_came
  turn-Turned nada ret i w at open_yet sound z len valid small b = (
    in_nada ops little fuel ret i w,
    rw at refl,
    ((sound.0, (0, append-nil (range ops.header_at 12), sound.1)), refl, tt, omega arith),
  )
  turn-Turned header_coming ret i w at open_yet sound z len valid small b =
      let (t, run, turned) =
        header_coming-Turned ops in_flight interrupts law little header body l p fuel i w at sound
          (omega arith) in
      (t, ground (arith, run), turned)
  turn-Turned header_came ret i w at open_yet sound z len valid small b =
      let (t, run, turned) = header_came-Turned i w at sound len valid small in
      (t, ground (arith, run), turned)
  turn-Turned data_coming ret i w at open_yet sound z len valid small b =
      let (t, run, turned) =
        data_coming-Turned ops in_flight interrupts law little header body l p fuel i w at sound
          (omega arith) in
      (t, ground (arith, run), turned)
  turn-Turned data_came ret i w at open_yet sound z len valid small b =
      (in_data_came ops little fuel ret i w, rw at refl, (sound, refl, z, omega arith))
  turn-Turned complete ret i w at open_yet sound z len valid small b = absurd (open_yet refl)

  -- How a call of the state machine ends: all that came is in its place, and the value is 0 exactly if the message is
  -- complete.
  abbrev pub Received : ℤ × Incoming × World → World → Type 0
  Received (ret, i, w') w =
      Sound ops in_flight interrupts header body l p i.state i w'
      × (((ret ≡ pos 0) × (i.state ≡ complete)) ⊎ ((ret ≢ pos 0) × (i.state ≢ complete)))
      × (interrupts w' ≤ interrupts w)

  pub Proto-cases :
      (s : Proto)
      → (s ≡ complete) ⊎ ((s ≢ complete) × (eqb_ℤ (pos (proto_index s)) (pos 5) ≡ false))
  Proto-cases nada = inr ((λ e. cc e), refl)
  Proto-cases header_coming = inr ((λ e. cc e), refl)
  Proto-cases header_came = inr ((λ e. cc e), refl)
  Proto-cases data_coming = inr ((λ e. cc e), refl)
  Proto-cases data_came = inr ((λ e. cc e), refl)
  Proto-cases complete = inl refl

  pub index-le : (s : Proto) → proto_index s ≤ 5
  index-le nada = omega arith
  index-le header_coming = omega arith
  index-le header_came = omega arith
  index-le data_coming = omega arith
  index-le data_came = omega arith
  index-le complete = omega arith

  after_turn-Received :
      (rounds : ℤ → Incoming → World → Run (ℤ × Incoming × World)) (s : Proto) (w : World)
      (t : Turn World)
      → s ≢ complete
      → Turned ops in_flight interrupts law little header body l p fuel s w t
      → ((ret : ℤ) (i' : Incoming) (w' : World)
          → Sound ops in_flight interrupts header body l p i'.state i' w'
          → Zero i'.state ret
          → proto_index i'.state ≡ suc (proto_index s)
          → interrupts w' ≤ interrupts w
          → (out : ℤ × Incoming × World) × (rounds ret i' w' ≡ ok out) × Received out w')
      → (out : ℤ × Incoming × World) × (after_turn ops little fuel rounds t ≡ ok out)
        × Received out w
  unfolding after_turn
  after_turn-Received rounds s w (onward ret i' w') open_yet (sound, next, z, calm) ih =
      let (out, run, (kept, value, still)) = ih ret i' w' sound z next calm in
      (out, run, (kept, value, omega arith))
  after_turn-Received rounds s w (leave ret i' w') open_yet (sound, same, other, calm) ih =
      ((ret, i', w'), refl, (sound, inr (other, λ e. open_yet (sym same ∙ e)), calm))

  pub proto_loop-Received :
      (n : ℕ) (previous ret : ℤ) (i : Incoming) (w : World)
      → Sound ops in_flight interrupts header body l p i.state i w
      → Zero i.state ret
      → 6 ≤ n + proto_index i.state
      → eqb_ℤ previous (pos (proto_index i.state)) ≡ false
      → length header ≡ 12
      → validate_header little header ≡ ok (some (l, p))
      → p ≤ 131072
      → 12 + l + p + interrupts w < fuel
      → (out : ℤ × Incoming × World) × (proto_loop ops little fuel n previous ret i w ≡ ok out)
        × Received out w
  unfolding proto_loop
  proto_loop-Received zero previous ret i w sound z k other len valid small b =
      absurd (omega (arith, index-le i.state))
  proto_loop-Received (suc n) previous ret i w sound z k other len valid small b =
      elim (Proto-cases i.state) [
        | inl at ↦ (
          (ret, i, w),
          ground (arith, at),
          (sound, inl (subst (λ s. Zero s ret) at z, at), omega arith),
        )
        | inr (open_yet, early) ↦
            let (t, run, turned) =
              turn-Turned i.state ret i w refl open_yet sound z len valid small b in
            let (out, go, received) =
              after_turn-Received (proto_loop ops little fuel n (pos (proto_index i.state))) i.state
                w t open_yet turned
                (λ ret' i' w' sound' z' next calm.
                  proto_loop-Received n (pos (proto_index i.state)) ret' i' w' sound' z'
                    (omega (arith, next)) (ground (arith, next)) len valid small (omega arith)) in
            (out, rw (early, other, run) go, received)
      ]
