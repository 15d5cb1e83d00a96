-- ===== src/ListHead/Remove.antt =====
-- `list_del` and `list_del_init`.
use lz_lib.Base.{ℕ, ◌≡◌, ◌≢◌, sym, List, [], ◌∷◌, ◌++◌, All, All-append, arith}
use lz_lib.ListHead.{Links, list_del, list_del_init, unlink}
use lz_lib.ListHead.Seg.{Seg, NoDup, Ring, last, first, Seg-first, NoDup-rotate}
use lz_lib.ListHead.Relink.{All-first_behind, All-last_before, Kept, relink}

-- Nothing between `p` and `n`, where `x` stood.
record Removed (x p n : ℕ) (l l' : Links) : Type 0 where
  between : Seg l' p [] n
  kept : Kept (λ q. q ≢ x) p n l l'

list_del-Removed :
    (x p n : ℕ) (l : Links)
    → l.prev x ≡ p
    → l.next x ≡ n
    → p ≢ x
    → n ≢ x
    → Removed x p n l (list_del x l) × Removed x p n l (list_del_init x l)
unfolding list_del list_del_init unlink
list_del-Removed x p n l e f g h = (
  record {
    between = (ground arith, ground arith);
    kept = record { nexts = λ q a b. ground arith; prevs = λ q a b. ground arith };
  },
  record {
    between = (ground arith, ground arith);
    kept = record { nexts = λ q a b. ground arith; prevs = λ q a b. ground arith };
  },
)

-- The others, and that none of them is `x`.
NoDup-remove :
    (x : ℕ) (before after : List ℕ)
    → NoDup (before ++ (x ∷ after))
    → NoDup (before ++ after) × All (λ q. q ≢ x) (before ++ after)
NoDup-remove x [] after d = (d.1, d.0)
NoDup-remove x (y ∷ ys) after d =
    let rest = NoDup-remove x ys after d.1 in
    let parts = apart y x ys after d.0 in ((parts.0, rest.0), (λ e. parts.1 (sym e), rest.1))
  where
    apart :
        (y x : ℕ) (ys after : List ℕ)
        → All (λ q. q ≢ y) (ys ++ (x ∷ after))
        → All (λ q. q ≢ y) (ys ++ after) × (x ≢ y)
    apart y x [] after h = (h.1, h.0)
    apart y x (z ∷ zs) after h = let r = apart y x zs after h.1 in ((h.0, r.0), r.1)

-- The neighbours of a node of a list.
Seg-around :
    (l : Links) (a : ℕ) (before : List ℕ) (x : ℕ) (after : List ℕ) (b : ℕ)
    → Seg l a (before ++ (x ∷ after)) b
    → (l.prev x ≡ last a before) × (l.next x ≡ first after b)
Seg-around l a [] x after b s = (s.1, Seg-first l x after b s.2)
Seg-around l a (y ∷ ys) x after b s = Seg-around l y ys x after b s.2

remove-Ring :
    (l l' : Links) (head x : ℕ) (before after : List ℕ)
    → Ring l head (before ++ (x ∷ after))
    → Removed x (last head before) (first after head) l l'
    → Ring l' head (before ++ after)
remove-Ring l l' head x before after r i =
    let others = NoDup-remove x (head ∷ before) after r.apart in
    record {
      linked =
          relink (λ q. q ≢ x) l l' head before (x ∷ []) [] after head r.linked i.between i.kept
            others.0 (NoDup-rotate head (before ++ after) others.0) others.1
            (All-append (λ q. q ≢ x) (before ++ after) (head ∷ []) others.1.1 (others.1.0, tt));
      apart = others.0;
    }

alone : (x : ℕ) (l : Links) → Ring (list_del_init x l) x []
unfolding list_del_init
alone x l = record { linked = (ground arith, ground arith); apart = (tt, tt) }

-- A node of a list, taken out by `list_del` or `list_del_init`: the list keeps the other nodes, in their order and
-- linked both ways, and `list_del_init` leaves the node as an empty list of its own.
pub list_del-Ring :
    (l : Links) (head x : ℕ) (before after : List ℕ)
    → Ring l head (before ++ (x ∷ after))
    → Ring (list_del x l) head (before ++ after)
      × Ring (list_del_init x l) head (before ++ after)
      × Ring (list_del_init x l) x []
list_del-Ring l head x before after r =
    let around = Seg-around l head before x after head r.linked in
    let others = NoDup-remove x (head ∷ before) after r.apart in
    let out =
      list_del-Removed x (last head before) (first after head) l around.0 around.1
        (All-last_before (λ q. q ≢ x) head before after others.1)
        (All-first_behind (λ q. q ≢ x) before after head
          (All-append (λ q. q ≢ x) (before ++ after) (head ∷ []) others.1.1 (others.1.0, tt))) in
    (
      remove-Ring l (list_del x l) head x before after r out.0,
      remove-Ring l (list_del_init x l) head x before after r out.1,
      alone x l,
    )
