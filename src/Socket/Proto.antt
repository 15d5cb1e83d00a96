-- ===== src/Socket/Proto.antt =====
-- The states of a message that comes in: `__socket_proto_state_machine` of src/socket.c, and what it calls.
--
-- The header of the message that comes in has a fixed address in the transport. `pending_vector` stands for the blocks that
-- are still to be filled.
pub mod Sound
pub mod Turns
pub mod Receive
pub mod Arrive
pub mod Whole
use lz_lib.Base.{
  ℕ, zero, suc, ◌+◌, ◌-◌, ◌^◌, Bool, true, false, ◌&&◌, Option, none, some, List, [], ◌∷◌, ◌++◌,
  map, take, length, get_or, eq_bytes, ltb, leb, ◌==◌, if◌then◌else◌, Run, ok, fault, out_of_fuel,
  ◌>>=◌,
}
use lz_lib.Base.Int.{ℤ, pos, negsuc, eqb_ℤ}
use lz_lib.Dict.Wire.{read_word}
use lz_lib.Socket.{Iov, Reply, Rwv, socket_rwv}
use lz_lib.Socket.Vec.{range}

-- `socket_proto_state_t`
pub data Proto : Type 0 where
  nada header_coming header_came data_coming data_came complete : Proto

abbrev pub proto_index : Proto → ℕ
proto_index nada = 0
proto_index header_coming = 1
proto_index header_came = 2
proto_index data_coming = 3
proto_index data_came = 4
proto_index complete = 5

-- `incoming` of `socket_private_t`. The address 0 is NULL.
pub record Incoming : Type 0 where
  pub state : Proto
  pub hdr_p : ℕ
  pub hdrlen : ℕ
  pub iobuf : Option ℕ
  pub buf_p : ℕ
  pub buflen : ℕ
  pub count : ℕ
  pub pending_vector : List Iov
  pub pending_count : ℤ

-- `memset (&priv->incoming, 0, sizeof (priv->incoming))`
abbrev pub cleared : Incoming
cleared = record {
  state = nada;
  hdr_p = 0;
  hdrlen = 0;
  iobuf = none;
  buf_p = 0;
  buflen = 0;
  count = 0;
  pending_vector = [];
  pending_count = pos 0;
}

-- What the transport calls: the memory that it reads, `readv` on its descriptor, `malloc`, and `iobuf_get` on its pool, by
-- the address of the buffer's memory.
pub record Ops (World : Type 0) : Type 0 where
  pub mem : World → ℕ → ℕ
  pub readv : World → List Iov → Reply × World
  pub malloc : World → ℕ → ℕ × World
  pub iobuf_get : World → Option (ℕ × World)
  pub header_at : ℕ

-- `sizeof (struct socket_header)`, which is packed
abbrev pub header_size : ℕ
header_size = 12

-- `__socket_proto_validate_header`, of the header's bytes: the two sizes.
unfoldable pub validate_header : Bool → List ℕ → Run (Option (ℕ × ℕ))
unfolding read_word eq_bytes
validate_header little header = do
  size1 ← read_word little header (pos 3)
  size2 ← read_word little header (pos 7)
  ok (
      if eq_bytes (take 3 header) (b':' ∷ (b'O' ∷ (0 ∷ []))) && (get_or header 11 0 == 42)
      then (if (ltb 0 size1 && leb size1 1048576) && leb size2 131072
          then some (size1, size2)
          else none)
      else none)

-- A case of the `switch` either breaks, with the value of `ret`, or leaves the loop.
pub data Turn (World : Type 0) : Type 0 where
  onward : ℤ → Incoming → World → Turn World
  leave : ℤ → Incoming → World → Turn World

module _ {World : Type 0} (ops : Ops World) (little : Bool) (fuel : ℕ) where
  unfoldable pub in_nada : ℤ → Incoming → World → Turn World
  in_nada ret i w =
      onward ret
        (record i {
          pending_vector = record { base = ops.header_at; len = header_size } ∷ [];
          state = header_coming;
        })
        w

  -- What follows `__socket_readv` on the header, and on the data.
  unfoldable pub header_read : Incoming → Rwv World → Turn World
  header_read i r =
      let i' = record i { pending_vector = r.pending } in
      if eqb_ℤ r.ret (pos 0)
      then onward r.ret (record i' { state = header_came }) r.world
      else leave r.ret i' r.world

  unfoldable pub data_read : Incoming → Rwv World → Turn World
  data_read i r =
      let i' = record i { pending_vector = r.pending; pending_count = r.ret } in
      if eqb_ℤ r.ret (pos 0)
      then onward r.ret (record i' { state = data_came }) r.world
      else leave r.ret i' r.world

  unfoldable pub in_header_coming : Incoming → World → Run (Turn World)
  unfolding socket_rwv header_read
  in_header_coming i w =
      socket_rwv ops.readv fuel false i.pending_vector w >>= λ r. ok (header_read i r)

  -- The vector for the data, with a block for the buffer where there is one.
  unfoldable pub await_data : Incoming → List Iov → World → Turn World
  await_data i vec w =
      onward (pos 0)
        (record i {
          count = length vec;
          pending_vector = vec;
          pending_count = pos (length vec);
          state = data_coming;
        })
        w

  unfoldable pub header_valid : Incoming → ℕ → ℕ → World → Turn World
  unfolding await_data
  header_valid i size1 size2 w =
      let p = (ops.malloc w size1).0 in
      let w' = (ops.malloc w size1).1 in
      let i' = record i { hdrlen = size1; buflen = size2; hdr_p = p } in
      if size2 == 0
      then await_data i' (record { base = p; len = size1 } ∷ []) w'
      else elim (ops.iobuf_get w') [
        | none ↦ leave (negsuc 11) i' w'
        | some (b, w'') ↦
            await_data (record i' { iobuf = some b; buf_p = b })
              (record { base = p; len = size1 } ∷ (record { base = b; len = size2 } ∷ [])) w''
      ]

  unfoldable pub in_header_came : Incoming → World → Run (Turn World)
  unfolding validate_header header_valid
  in_header_came i w =
      validate_header little (map (ops.mem w) (range ops.header_at header_size)) >>= λ sizes.
      elim sizes [
        | none ↦ ok (leave (negsuc 0) i w)
        | some (size1, size2) ↦ ok (header_valid i size1 size2 w)
      ]

  -- A negative count, which an error leaves, makes the system call fail with EINVAL.
  unfoldable pub in_data_coming : Incoming → World → Run (Turn World)
  unfolding socket_rwv data_read
  in_data_coming i w = elim i.pending_count [
    | negsuc n ↦ ok (leave (negsuc 0) i w)
    | pos n ↦ socket_rwv ops.readv fuel false i.pending_vector w >>= λ r. ok (data_read i r)
  ]

  unfoldable pub in_data_came : ℤ → Incoming → World → Turn World
  in_data_came ret i w =
      onward ret (record i { pending_vector = []; pending_count = pos 0; state = complete }) w

  unfoldable pub turn : ℤ → Incoming → World → Run (Turn World)
  unfolding in_nada in_header_coming in_header_came in_data_coming in_data_came
  turn ret i w = elim i.state [
    | nada ↦ ok (in_nada ret i w)
    | header_coming ↦ in_header_coming i w
    | header_came ↦ in_header_came i w
    | data_coming ↦ in_data_coming i w
    | data_came ↦ ok (in_data_came ret i w)
    | complete ↦ ok (onward ret i w)
  ]

  unfoldable pub after_turn :
      (ℤ → Incoming → World → Run (ℤ × Incoming × World)) → Turn World → Run (ℤ × Incoming × World)
  after_turn rounds (onward ret i w) = rounds ret i w
  after_turn rounds (leave ret i w) = ok (ret, i, w)

  -- The loop, with the index of the state that the last round found.
  unfoldable pub proto_loop : ℕ → ℤ → ℤ → Incoming → World → Run (ℤ × Incoming × World)
  unfolding turn after_turn
  proto_loop zero previous ret i w = fault out_of_fuel
  proto_loop (suc rounds) previous ret i w =
      let here = pos (proto_index i.state) in
      let next = turn ret i w >>= after_turn (proto_loop rounds here) in
      if eqb_ℤ here (pos 5)
      then ok (ret, i, w)
      else (if eqb_ℤ previous here then ok (negsuc 0, i, w) else next)

  -- `__socket_proto_state_machine` and `socket_proto_state_machine`: each state is met once.
  unfoldable pub socket_proto_state_machine : Incoming → World → Run (ℤ × Incoming × World)
  unfolding proto_loop
  socket_proto_state_machine i w = proto_loop 6 (negsuc 0) (negsuc 0) i w
