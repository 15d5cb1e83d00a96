-- ===== src/Socket/Streams.antt =====
-- Bytes between memory and the two directions of a connection.
use lz_lib.Base.{everywhere, ℕ, ◌≡◌, ◌≢◌, refl, sym, ap, ◌∙◌, List, [], ◌∷◌, ◌++◌, All, map}
use mathlib.Core.List.{append_assoc, append-nil}
use lz_lib.ListHead.Seg.{NoDup, All-back, All-front}
use lz_lib.Socket.{Iov, Reply}
use lz_lib.Socket.Vec.{addresses}
use lz_lib.Socket.Transfer.{Step, Transfers}

pub map-append : (f : ℕ → ℕ) (xs ys : List ℕ) → map f (xs ++ ys) ≡ map f xs ++ map f ys
map-append f [] ys = refl
map-append f (x ∷ xs) ys = ap (λ t. f x ∷ t) (map-append f xs ys)

-- No address of the one list is one of the other.
abbrev pub Disjoint : List ℕ → List ℕ → Type 0
Disjoint xs ys = All (λ x. All (λ y. y ≢ x) ys) xs

pub NoDup-Disjoint : (xs ys : List ℕ) → NoDup (xs ++ ys) → Disjoint xs ys
NoDup-Disjoint [] ys d = tt
NoDup-Disjoint (x ∷ xs) ys d = (All-back (λ y. y ≢ x) xs ys d.0, NoDup-Disjoint xs ys d.1)

pub map_same : (f g : ℕ → ℕ) (xs : List ℕ) → All (λ x. f x ≡ g x) xs → map f xs ≡ map g xs
map_same f g [] h = refl
map_same f g (x ∷ xs) h = cc (h.0, map_same f g xs h.1)

module _ {World : Type 0} (mem : World → ℕ → ℕ) where
  module _ (in_flight : World → List ℕ) where
    -- The bytes that come next are put at `xs`, and no other address changes.
    pub record Reads (xs : List ℕ) (w w' : World) : Type 0 where
      pub taken : in_flight w ≡ map (mem w') xs ++ in_flight w'
      pub frame : (a : ℕ) → All (λ x. x ≢ a) xs → mem w' a ≡ mem w a

    pub Reads-kept :
        (xs ys : List ℕ) (w w' : World)
        → Reads ys w w'
        → Disjoint xs ys
        → map (mem w') xs ≡ map (mem w) xs
    Reads-kept [] ys w w' r d = refl
    Reads-kept (x ∷ xs) ys w w' r d = cc (r.frame x d.0, Reads-kept xs ys w w' r d.1)

    pub Reads-Transfers :
        (interrupts : World → ℕ) (call : World → List Iov → Reply × World)
        → ((w : World) (vec : List Iov)
            → NoDup (addresses vec)
            → Step Reads interrupts (addresses vec) w (call w vec).0 (call w vec).1)
        → Transfers Reads interrupts call
    Reads-Transfers interrupts call law = record {
      none = λ w. record { taken = refl; frame = λ a h. refl };
      both = λ xs ys u v w d r s. record {
        taken =
            r.taken
            ∙ ap (λ t. map (mem v) xs ++ t) s.taken
            ∙ ap (λ t. t ++ (map (mem w) ys ++ in_flight w))
                (sym (Reads-kept xs ys v w s (NoDup-Disjoint xs ys d)))
            ∙ sym (
                ap (λ t. t ++ in_flight w) (map-append (mem w) xs ys)
                ∙ append_assoc (map (mem w) xs) (map (mem w) ys) (in_flight w));
        frame = λ a h.
            s.frame a (All-back (λ x. x ≢ a) xs ys h) ∙ r.frame a (All-front (λ x. x ≢ a) xs ys h);
      };
      step = law;
    }

  module _ (sent : World → List ℕ) where
    -- The bytes at `xs` are sent, and no address changes.
    pub record Writes (xs : List ℕ) (w w' : World) : Type 0 where
      pub given : sent w' ≡ sent w ++ map (mem w) xs
      pub frame : (a : ℕ) → mem w' a ≡ mem w a

    pub Writes-Transfers :
        (interrupts : World → ℕ) (call : World → List Iov → Reply × World)
        → ((w : World) (vec : List Iov)
            → NoDup (addresses vec)
            → Step Writes interrupts (addresses vec) w (call w vec).0 (call w vec).1)
        → Transfers Writes interrupts call
    Writes-Transfers interrupts call law = record {
      none = λ w. record { given = sym (append-nil (sent w)); frame = λ a. refl };
      both = λ xs ys u v w d r s. record {
        given =
            s.given
            ∙ ap (λ t. t ++ map (mem v) ys) r.given
            ∙ append_assoc (sent u) (map (mem u) xs) (map (mem v) ys)
            ∙ ap (λ t. sent u ++ (map (mem u) xs ++ t))
                (map_same (mem v) (mem u) ys (everywhere (λ a. r.frame a) ys))
            ∙ ap (λ t. sent u ++ t) (sym (map-append (mem u) xs ys));
        frame = λ a. s.frame a ∙ r.frame a;
      };
      step = law;
    }
