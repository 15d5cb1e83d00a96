-- ===== src/ListHead/Walk.antt =====
-- `list_for_each` and `list_empty`.
use lz_lib.Base.{ℕ, zero, suc, ◌<◌, ◌≡◌, ◌≢◌, List, [], ◌∷◌, All, length, ◌==◌, arith}
use lz_lib.ListHead.{Links, walk, list_empty}
use lz_lib.ListHead.Seg.{Seg, Ring, first, Seg-first}

walk-Seg :
    (l : Links) (head a : ℕ) (xs : List ℕ) (rounds : ℕ)
    → Seg l a xs head
    → All (λ q. q ≢ head) xs
    → length xs < rounds
    → walk rounds (first xs head) head l ≡ xs
unfolding walk
walk-Seg l head a [] (suc r) s d b = ground arith
walk-Seg l head a (x ∷ xs) (suc r) s d b =
    let next : l.next x ≡ first xs head = Seg-first l x xs head s.2 in
    let rest = walk-Seg l head x xs r s.2 d.1 (omega arith) in
    let other : x ≢ head = d.0 in rw next (ground (arith, rest))
walk-Seg l head a xs zero s d b = absurd (omega arith)

-- `list_for_each` visits the nodes of a list, each once and in the list's order, and stops: one round more than there
-- are nodes is enough.  `list_empty` answers by the first link alone, and is true exactly of a list of no nodes.
walk-Ring :
    (l : Links) (head : ℕ) (xs : List ℕ) (rounds : ℕ)
    → Ring l head xs
    → length xs < rounds
    → (walk rounds (l.next head) head l ≡ xs) × (list_empty head l ≡ (length xs == 0))
unfolding list_empty
walk-Ring l head xs rounds r b = (
  rw (Seg-first l head xs head r.linked) (walk-Seg l head head xs rounds r.linked r.apart.0 b),
  none_left l head xs r,
)
  where
    none_left :
        (l : Links) (head : ℕ) (xs : List ℕ)
        → Ring l head xs
        → (l.next head == head) ≡ (length xs == 0)
    none_left l head [] r = let a : l.next head ≡ head = r.linked.0 in ground arith
    none_left l head (x ∷ xs) r =
        let a : l.next head ≡ x = r.linked.0 in let b : x ≢ head = r.apart.0.0 in ground arith
