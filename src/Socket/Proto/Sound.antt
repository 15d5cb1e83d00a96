-- ===== src/Socket/Proto/Sound.antt =====
-- What holds of a message while it comes in.
use lz_lib.Base.{ℕ, ◌≤◌, ◌≡◌, none, some, List, ◌++◌, map, take, drop, ◌==◌, if◌then◌else◌}
use lz_lib.ListHead.Seg.{NoDup}
use lz_lib.Socket.{Iov}
use lz_lib.Socket.Vec.{range, addresses}
use lz_lib.Socket.Transfer.{Step}
use lz_lib.Socket.Streams.{Reads}
use lz_lib.Socket.Proto.{
  Proto, nada, header_coming, header_came, data_coming, data_came, complete, Incoming, Ops,
  header_size,
}

-- Where the data go.
abbrev pub places : Incoming → ℕ → ℕ → List ℕ
places i l p = range i.hdr_p l ++ range i.buf_p p

module _ {World : Type 0} (ops : Ops World) (in_flight : World → List ℕ)
    (interrupts : World → ℕ) where
  abbrev pub header_places : List ℕ
  header_places = range ops.header_at header_size

  abbrev pub stored : World → List ℕ → List ℕ
  stored w xs = map (ops.mem w) xs

  -- What the transport relies on: `readv` takes the bytes in flight in order; `malloc` and `iobuf_get` leave them alone, and
  -- give memory that nothing else uses. A buffer holds the largest size that a header may name.
  pub record Serves : Type 0 where
    pub readv :
        (w : World) (vec : List Iov)
        → NoDup (addresses vec)
        → Step
            (Reads ops.mem in_flight)
            interrupts
            (addresses vec)
            w
            (ops.readv w vec).0
            (ops.readv w vec).1
    pub malloc :
        (w : World) (n : ℕ)
        → (in_flight (ops.malloc w n).1 ≡ in_flight w)
          × (interrupts (ops.malloc w n).1 ≤ interrupts w)
          × (stored (ops.malloc w n).1 header_places ≡ stored w header_places)
    pub iobuf_get :
        (w w' : World) (n b m : ℕ)
        → ops.iobuf_get (ops.malloc w n).1 ≡ some (b, w')
        → m ≤ 131072
        → (in_flight w' ≡ in_flight w)
          × (interrupts w' ≤ interrupts w)
          × NoDup (range (ops.malloc w n).0 n ++ range b m)

  -- A message of sizes l and p, of which `header` and then `body` were in flight.
  module _ (header body : List ℕ) (l p : ℕ) where
    abbrev pub Placed : Incoming → Type 0
    Placed i = (i.hdrlen ≡ l) × (i.buflen ≡ p) × (i.iobuf ≡ (if p == 0 then none else some i.buf_p))

    -- By state: what has come is in its place, and the rest is in flight.
    abbrev pub Sound : Proto → Incoming → World → Type 0
    Sound nada i w = (i.iobuf ≡ none) × (in_flight w ≡ header ++ body)
    Sound header_coming i w =
        (i.iobuf ≡ none)
        × ((k : ℕ) × (addresses i.pending_vector ≡ drop k header_places)
            × (stored w (take k header_places) ++ in_flight w ≡ header ++ body))
    Sound header_came i w =
        (i.iobuf ≡ none) × (stored w header_places ++ in_flight w ≡ header ++ body)
    Sound data_coming i w =
        Placed i
        × NoDup (places i l p)
        × ((k : ℕ) × (addresses i.pending_vector ≡ drop k (places i l p))
            × (stored w (take k (places i l p)) ++ in_flight w ≡ body))
    Sound data_came i w = Placed i × (stored w (places i l p) ++ in_flight w ≡ body)
    Sound complete i w = Placed i × (stored w (places i l p) ++ in_flight w ≡ body)
