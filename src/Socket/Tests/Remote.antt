-- ===== src/Socket/Tests/Remote.antt =====
-- A peer to try the transport on.
--
-- `readv` and `writev` move at most five bytes in a call. Without bytes in flight `readv` fails with EAGAIN.
use lz_lib.Base.{
  ℕ, zero, suc, ◌+◌, ◌≤◌, ◌≡◌, ◌≢◌, inl, inr, refl, sym, ap, ◌∙◌, List, [], ◌∷◌, ◌++◌, All, map,
  length, take, ◌==◌, if◌then◌else◌, arith, Bool-cases,
}
use lz_lib.ListHead.Seg.{NoDup}
use lz_lib.Socket.{Iov, Reply, moved, failed, eagain}
use lz_lib.Socket.Proto.Turns.{range-above}
use lz_lib.Socket.Vec.{range, addresses}
use lz_lib.Socket.Transfer.{Step, Transfers}
use lz_lib.Socket.Streams.{Reads, Writes, Reads-Transfers}

-- A peer: the bytes that it sent, the memory, and the bytes that it was sent.
pub record Peer : Type 0 where
  pub flight : List ℕ
  pub memory : ℕ → ℕ
  pub sent : List ℕ

abbrev pub put : (ℕ → ℕ) → ℕ → ℕ → ℕ → ℕ
put m a x b = if b == a then x else m b

put_same : (m : ℕ → ℕ) (a x : ℕ) → put m a x a ≡ x
put_same m a x = ground arith

abbrev pub put_all : (ℕ → ℕ) → ℕ → List ℕ → ℕ → ℕ
put_all m a [] = m
put_all m a (x ∷ xs) = put_all (put m a x) (a + 1) xs

pub put_other : (m : ℕ → ℕ) (a x b : ℕ) → a ≢ b → put m a x b ≡ m b
put_other m a x b h = elim (Bool-cases (b == a)) [
  | inl e ↦ absurd (h (ground arith))
  | inr e ↦ rw e refl
]

pub record Poured : Type 0 where
  pub number : ℕ
  pub left : List ℕ
  pub filled : ℕ → ℕ

-- At most k bytes of the stream go to the first of the places.
abbrev pub pour : ℕ → List ℕ → List ℕ → (ℕ → ℕ) → Poured
pour zero places stream m = record { number = 0; left = stream; filled = m }
pour (suc k) [] stream m = record { number = 0; left = stream; filled = m }
pour (suc k) (a ∷ bs) [] m = record { number = 0; left = []; filled = m }
pour (suc k) (a ∷ bs) (x ∷ xs) m =
    let rest = pour k bs xs (put m a x) in
    record { number = suc rest.number; left = rest.left; filled = rest.filled }

All-front : (P : ℕ → Type 0) (n : ℕ) (xs : List ℕ) → All P xs → All P (take n xs)
All-front P zero xs h = tt
All-front P (suc n) [] h = tt
All-front P (suc n) (x ∷ xs) h = (h.0, All-front P n xs h.1)

pour_number : (k : ℕ) (bs xs : List ℕ) (m : ℕ → ℕ) → (pour k bs xs m).number ≤ length bs
pour_number zero bs xs m = omega arith
pour_number (suc k) [] xs m = omega arith
pour_number (suc k) (a ∷ bs) [] m = omega arith
pour_number (suc k) (a ∷ bs) (x ∷ xs) m = omega (arith, pour_number k bs xs (put m a x))

pour_frame :
    (k : ℕ) (bs xs : List ℕ) (m : ℕ → ℕ) (b : ℕ)
    → All (λ a. a ≢ b) (take (pour k bs xs m).number bs)
    → (pour k bs xs m).filled b ≡ m b
pour_frame zero bs xs m b h = refl
pour_frame (suc k) [] xs m b h = refl
pour_frame (suc k) (a ∷ bs) [] m b h = refl
pour_frame (suc k) (a ∷ bs) (x ∷ xs) m b h =
    pour_frame k bs xs (put m a x) b h.1 ∙ put_other m a x b h.0

pour_taken :
    (k : ℕ) (bs xs : List ℕ) (m : ℕ → ℕ)
    → NoDup bs
    → xs ≡ map (pour k bs xs m).filled (take (pour k bs xs m).number bs) ++ (pour k bs xs m).left
pour_taken zero bs xs m d = refl
pour_taken (suc k) [] xs m d = refl
pour_taken (suc k) (a ∷ bs) [] m d = refl
pour_taken (suc k) (a ∷ bs) (x ∷ xs) m d =
    let rest = pour k bs xs (put m a x) in
    let kept =
      pour_frame k bs xs (put m a x) a (All-front (λ y. y ≢ a) rest.number bs d.0)
      ∙ put_same m a x in
    cc (kept, pour_taken k bs xs (put m a x) d.1)

abbrev poured : Peer → List ℕ → Poured
poured w bs = pour 5 bs w.flight w.memory

abbrev pub readv_of : List ℕ → Peer → List Iov → Reply × Peer
readv_of [] w vec = (failed eagain, w)
readv_of (x ∷ xs) w vec =
    let r = poured w (addresses vec) in
    (moved r.number, record w { flight = r.left; memory = r.filled })

abbrev pub readv : Peer → List Iov → Reply × Peer
readv w vec = readv_of w.flight w vec

abbrev pub in_flight : Peer → List ℕ
in_flight w = w.flight

abbrev pub memory : Peer → ℕ → ℕ
memory w = w.memory

abbrev pub sent : Peer → List ℕ
sent w = w.sent

abbrev pub no_interrupts : Peer → ℕ
no_interrupts w = 0

nothing_read : (w : Peer) → Reads memory in_flight [] w w
nothing_read w = record { taken = refl; frame = λ a h. refl }

readv_of-Step :
    (xs : List ℕ) (w : Peer) (vec : List Iov)
    → NoDup (addresses vec)
    → Step
        (Reads memory in_flight)
        no_interrupts
        (addresses vec)
        w
        (readv_of xs w vec).0
        (readv_of xs w vec).1
readv_of-Step [] w vec d = (nothing_read w, omega arith, λ e. absurd (omega (arith, e)))
readv_of-Step (x ∷ xs) w vec d = (
  pour_number 5 (addresses vec) w.flight w.memory,
  record {
    taken = pour_taken 5 (addresses vec) w.flight w.memory d;
    frame = pour_frame 5 (addresses vec) w.flight w.memory;
  },
  omega arith,
)

pub readv-Step :
    (w : Peer) (vec : List Iov)
    → NoDup (addresses vec)
    → Step (Reads memory in_flight) no_interrupts (addresses vec) w (readv w vec).0 (readv w vec).1
readv-Step w vec d = readv_of-Step w.flight w vec d

abbrev pub writev : Peer → List Iov → Reply × Peer
writev w vec =
    let bytes = take 5 (addresses vec) in
    (moved (length bytes), record w { sent = w.sent ++ map w.memory bytes })

length-take_front : (n : ℕ) (xs : List ℕ) → length (take n xs) ≤ length xs
length-take_front zero xs = omega arith
length-take_front (suc n) [] = omega arith
length-take_front (suc n) (x ∷ xs) = omega (arith, length-take_front n xs)

take-length : (n : ℕ) (xs : List ℕ) → take (length (take n xs)) xs ≡ take n xs
take-length zero xs = refl
take-length (suc n) [] = refl
take-length (suc n) (x ∷ xs) = ap (λ t. x ∷ t) (take-length n xs)

pub writev-Step :
    (w : Peer) (vec : List Iov)
    → NoDup (addresses vec)
    → Step (Writes memory sent) no_interrupts (addresses vec) w (writev w vec).0 (writev w vec).1
writev-Step w vec d = (
  length-take_front 5 (addresses vec),
  record {
    given = ap (λ t. w.sent ++ map w.memory t) (sym (take-length 5 (addresses vec)));
    frame = λ a. refl;
  },
  omega arith,
)

pub reads : Transfers (Reads memory in_flight) no_interrupts readv
reads = Reads-Transfers memory in_flight no_interrupts readv readv-Step

pub put_all_frame :
    (m : ℕ → ℕ) (a : ℕ) (xs : List ℕ) (b : ℕ)
    → All (λ y. y ≢ b) (range a (length xs))
    → put_all m a xs b ≡ m b
put_all_frame m a [] b h = refl
put_all_frame m a (x ∷ xs) b h = put_all_frame (put m a x) (a + 1) xs b h.1 ∙ put_other m a x b h.0

pub put_all_there :
    (m : ℕ → ℕ) (a : ℕ) (xs : List ℕ) → map (put_all m a xs) (range a (length xs)) ≡ xs
put_all_there m a [] = refl
put_all_there m a (x ∷ xs) =
    let first =
      put_all_frame (put m a x) (a + 1) xs a (range-above a (a + 1) (length xs) (omega arith))
      ∙ put_same m a x in
    cc (first, put_all_there (put m a x) (a + 1) xs)
