-- ===== src/Socket/Transfer.antt =====
-- What `__socket_rwv` moves.
use lz_lib.Base.{
  ◌≢◌, ℕ, zero, suc, ◌+◌, ◌-◌, ◌<◌, ◌≤◌, ◌≡◌, ◌⊎◌, inl, inr, refl, sym, ap, subst, ◌∙◌, Bool, true,
  false, List, [], ◌∷◌, ◌++◌, All, length, take, drop, ◌==◌, Run, ok, arith, Bool-cases,
}
use lz_lib.Base.Int.{ℤ, pos, negsuc}
use lz_lib.ListHead.Seg.{NoDup}
use lz_lib.Socket.{
  Iov, Reply, moved, failed, eintr, eagain, Rwv, broken, paused, after_call, socket_rwv,
}
use lz_lib.Socket.Vec.{addresses, advance-addresses}

pub NoDup-drop : (n : ℕ) (xs : List ℕ) → NoDup xs → NoDup (drop n xs)
NoDup-drop zero xs d = d
NoDup-drop (suc n) [] d = d
NoDup-drop (suc n) (x ∷ xs) d = NoDup-drop n xs d.1

All-take : (P : ℕ → Type 0) (n : ℕ) (xs : List ℕ) → All P xs → All P (take n xs)
All-take P zero xs h = tt
All-take P (suc n) [] h = tt
All-take P (suc n) (x ∷ xs) h = (h.0, All-take P n xs h.1)

pub NoDup-take : (n : ℕ) (xs : List ℕ) → NoDup xs → NoDup (take n xs)
NoDup-take zero xs d = tt
NoDup-take (suc n) [] d = tt
NoDup-take (suc n) (x ∷ xs) d = (All-take (λ y. y ≢ x) n xs d.0, NoDup-take n xs d.1)

pub length-drop : {A : Type 0} (n : ℕ) (xs : List A) → length (drop n xs) ≡ length xs - n
length-drop zero xs = omega arith
length-drop (suc n) [] = omega arith
length-drop (suc n) (x ∷ xs) = length-drop n xs ∙ omega arith

take_nil : {A : Type 0} (n : ℕ) → ◌≡◌ {A = List A} (take n []) []
take_nil zero = refl
take_nil (suc n) = refl

drop_nil : {A : Type 0} (n : ℕ) → ◌≡◌ {A = List A} (drop n []) []
drop_nil zero = refl
drop_nil (suc n) = refl

pub take-add :
    {A : Type 0} (m n : ℕ) (xs : List A) → take (m + n) xs ≡ take m xs ++ take n (drop m xs)
take-add zero n xs = ap (λ k. take k xs) (omega arith)
take-add (suc m) n [] = rw (take_nil (suc m + n), take_nil n) refl
take-add (suc m) n (x ∷ xs) =
    let e : suc m + n ≡ suc (m + n) = omega arith in rw e (ap (λ t. x ∷ t) (take-add m n xs))

pub drop-add : {A : Type 0} (m n : ℕ) (xs : List A) → drop (m + n) xs ≡ drop n (drop m xs)
drop-add zero n xs = ap (λ k. drop k xs) (omega arith)
drop-add (suc m) n [] = rw (drop_nil (suc m + n), drop_nil n) refl
drop-add (suc m) n (x ∷ xs) =
    let e : suc m + n ≡ suc (m + n) = omega arith in rw e (drop-add m n xs)

none_pending : (vec : List Iov) → 0 ≡ length vec → addresses vec ≡ []
none_pending [] e = refl
none_pending (v ∷ vs) e = absurd (omega (arith, e))

-- With the value 0 no byte is left.
pub all_moved :
    (vec : List Iov) (ret : ℤ)
    → (ret ≡ negsuc 0) ⊎ (ret ≡ pos (length vec))
    → ret ≡ pos 0
    → addresses vec ≡ []
all_moved vec ret (inl f) z = absurd (cc)
all_moved vec ret (inr f) z = none_pending vec (ground (arith, z, f))

-- `Moves xs w w'`: between two worlds bytes went to or from the addresses `xs`, in this order.
module _ {World : Type 0} (Moves : List ℕ → World → World → Type 0) (interrupts : World → ℕ) where
  -- A single call: it moves bytes of the front of its blocks, or fails and moves none. `interrupts` bounds how often
  -- signals may still interrupt one.
  abbrev pub Step : List ℕ → World → Reply → World → Type 0
  Step xs w (moved n) w' = (n ≤ length xs) × Moves (take n xs) w w' × (interrupts w' ≤ interrupts w)
  Step xs w (failed e) w' =
      Moves [] w w' × (interrupts w' ≤ interrupts w) × (e ≡ eintr → interrupts w' < interrupts w)

  pub record Transfers (call : World → List Iov → Reply × World) : Type 0 where
    pub none : (w : World) → Moves [] w w
    pub both :
        (xs ys : List ℕ) (u v w : World)
        → NoDup (xs ++ ys)
        → Moves xs u v
        → Moves ys v w
        → Moves (xs ++ ys) u w
    pub step :
        (w : World) (vec : List Iov)
        → NoDup (addresses vec)
        → Step (addresses vec) w (call w vec).0 (call w vec).1

  -- How `__socket_rwv` ends: k bytes are moved, the vector left is the one behind them, and the return value is the
  -- number of blocks left, or -1.
  pub record Ends (vec : List Iov) (w : World) (r : Rwv World) : Type 0 where
    pub count : ℕ
    pub inside : count ≤ length (addresses vec)
    pub left : addresses r.pending ≡ drop count (addresses vec)
    pub moves : Moves (take count (addresses vec)) w r.world
    pub value : (r.ret ≡ negsuc 0) ⊎ (r.ret ≡ pos (length r.pending))
    pub calm : interrupts r.world ≤ interrupts w

  module _ (call : World → List Iov → Reply × World) (law : Transfers call) where
    none_moved :
        (vec : List Iov) (w w' : World) (ret : ℤ) (errno : ℕ)
        → Moves [] w w'
        → interrupts w' ≤ interrupts w
        → (ret ≡ negsuc 0) ⊎ (ret ≡ pos (length vec))
        → Ends vec w (record { ret = ret; pending = vec; errno = errno; world = w' })
    none_moved vec w w' ret errno m i v = record {
      count = 0;
      inside = omega arith;
      left = refl;
      moves = m;
      value = v;
      calm = i;
    }

    -- Behind n bytes, the rest of the rounds.
    then-Ends :
        (vec vec' : List Iov) (w w' : World) (n : ℕ) (r : Rwv World)
        → NoDup (addresses vec)
        → n ≤ length (addresses vec)
        → addresses vec' ≡ drop n (addresses vec)
        → Moves (take n (addresses vec)) w w'
        → interrupts w' ≤ interrupts w
        → Ends vec' w' r
        → Ends vec w r
    then-Ends vec vec' w w' n r d k at m i e =
        let xs = addresses vec in
        let len : length (addresses vec') ≡ length xs - n = ap length at ∙ length-drop n xs in
        record {
          count = n + e.count;
          inside = omega (arith, e.inside, len);
          left = e.left ∙ ap (drop e.count) at ∙ sym (drop-add n e.count xs);
          moves =
              subst (λ ys. Moves ys w r.world) (sym (take-add n e.count xs))
                (law.both (take n xs) (take e.count (drop n xs)) w w' r.world
                  (subst NoDup (take-add n e.count xs) (NoDup-take (n + e.count) xs d)) m
                  (subst (λ ys. Moves (take e.count ys) w' r.world) at e.moves));
          value = e.value;
          calm = omega (arith, e.calm);
        }

    after_call-Ends :
        (rounds : List Iov → World → Run (Rwv World)) (fuel : ℕ) (write : Bool) (vec : List Iov)
        (w : World) (reply : Reply) (w' : World)
        → ((vec' : List Iov) (w' : World)
            → NoDup (addresses vec')
            → length (addresses vec') + interrupts w' < fuel
            → (r : Rwv World) × (rounds vec' w' ≡ ok r) × Ends vec' w' r)
        → NoDup (addresses vec)
        → length (addresses vec) + interrupts w < suc fuel
        → Step (addresses vec) w reply w'
        → (r : Rwv World) × (after_call call rounds write vec reply w' ≡ ok r) × Ends vec w r
    unfolding after_call paused broken
    after_call-Ends rounds fuel true vec w (moved zero) w' ih d b s =
        (paused call 0 vec w', refl, none_moved vec w w' (pos (length vec)) 0 s.1 s.2 (inr refl))
    after_call-Ends rounds fuel false vec w (moved zero) w' ih d b s =
        (broken call 107 vec w', refl, none_moved vec w w' (negsuc 0) 107 s.1 s.2 (inl refl))
    after_call-Ends rounds fuel write vec w (moved (suc n)) w' ih d b s =
        let (vec', run, at, lively) = advance-addresses (suc n) vec (omega arith) s.0 in
        let len : length (addresses vec') ≡ length (addresses vec) - suc n =
          ap length at ∙ length-drop (suc n) (addresses vec) in
        let (r, go, ends) =
          ih vec' w' (subst NoDup (sym at) (NoDup-drop (suc n) (addresses vec) d))
            (omega (arith, len, s.0, s.2)) in
        (r, rw run go, then-Ends vec vec' w w' (suc n) r d s.0 at s.1 s.2 ends)
    after_call-Ends rounds fuel write vec w (failed e) w' ih d b s =
        elim (Bool-cases (e == eagain)) [
          | inl t ↦ (
            paused call e vec w',
            rw t refl,
            none_moved vec w w' (pos (length vec)) e s.0 s.1 (inr refl),
          )
          | inr f ↦ elim (Bool-cases (e == eintr)) [
            | inl t ↦
                let same : e ≡ eintr = ground arith in
                let (r, go, ends) = ih vec w' d (omega (arith, s.2 same)) in
                (r, rw (f, t) go, then-Ends vec vec w w' 0 r d (omega arith) refl s.0 s.1 ends)
            | inr g ↦ (
              broken call e vec w',
              rw (f, g) refl,
              none_moved vec w w' (negsuc 0) e s.0 s.1 (inl refl),
            )
          ]
        ]

    -- On blocks that cover no address twice, with a system call that moves bytes of the front of its blocks or fails and
    -- moves none, and with a round for each byte, one for each interrupt and one more: `__socket_rwv` returns, it has
    -- moved a front part of the bytes in order, the pending vector covers just the rest, and its value is -1 or the
    -- number of pending blocks.
    pub socket_rwv-Ends :
        (fuel : ℕ) (write : Bool) (vec : List Iov) (w : World)
        → NoDup (addresses vec)
        → length (addresses vec) + interrupts w < fuel
        → (r : Rwv World) × (socket_rwv call fuel write vec w ≡ ok r) × Ends vec w r
    unfolding socket_rwv paused
    socket_rwv-Ends zero write vec w d b = absurd (omega arith)
    socket_rwv-Ends (suc fuel) write [] w d b = (
      paused call 0 [] w,
      refl,
      none_moved [] w w (pos 0) 0 (law.none w) (omega arith) (inr refl),
    )
    socket_rwv-Ends (suc fuel) write (v ∷ vs) w d b =
        after_call-Ends (socket_rwv call fuel write) fuel write (v ∷ vs) w (call w (v ∷ vs)).0
          (call w (v ∷ vs)).1 (λ vec' w' e c. socket_rwv-Ends fuel write vec' w' e c) d b
          (law.step w (v ∷ vs) d)
