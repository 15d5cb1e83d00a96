-- ===== src/ListHead/Splice.antt =====
-- `list_splice` and `list_splice_init`.
use lz_lib.Base.{ℕ, ◌≡◌, ◌≢◌, sym, ◌∙◌, true, false, List, [], ◌∷◌, ◌++◌, All, All-append, arith}
use lz_lib.ListHead.{Links, list_splice, list_splice_init, splice, init_list_head, list_empty}
use lz_lib.ListHead.Seg.{All-last, Seg, NoDup, Ring, last, first, Seg-first, Seg-last, NoDup-rotate}
use lz_lib.ListHead.Relink.{relink, All-first_behind}

-- The nodes from `y` to `z` between `head` and `n`; the head `list` may change.
record Spliced (list head y z n : ℕ) (l l' : Links) : Type 0 where
  into : l'.next head ≡ y
  back : l'.prev y ≡ head
  out : l'.next z ≡ n
  from : l'.prev n ≡ z
  nexts : (q : ℕ) → q ≢ z → q ≢ head → q ≢ list → l'.next q ≡ l.next q
  prevs : (q : ℕ) → q ≢ n → q ≢ y → q ≢ list → l'.prev q ≡ l.prev q

module _ (list head y z n : ℕ) (l : Links) where
  splice-Spliced :
      l.next list ≡ y
      → l.prev list ≡ z
      → l.next head ≡ n
      → z ≢ head
      → z ≢ list
      → list ≢ head
      → n ≢ y
      → Spliced list head y z n l (splice list head l)
  unfolding splice
  splice-Spliced e f g a b c d = record {
    into = ground arith;
    back = ground arith;
    out = ground arith;
    from = ground arith;
    nexts = λ q i j k. ground arith;
    prevs = λ q i j k. ground arith;
  }

  init-Spliced :
      (l' : Links)
      → Spliced list head y z n l l'
      → z ≢ list
      → list ≢ head
      → n ≢ list
      → y ≢ list
      → Spliced list head y z n l (init_list_head list l')
  unfolding init_list_head
  init-Spliced l' s a b c d = record {
    into = ground (arith, s.into);
    back = ground (arith, s.back);
    out = ground (arith, s.out);
    from = ground (arith, s.from);
    nexts = λ q i j k. ground (arith, s.nexts q i j k);
    prevs = λ q i j k. ground (arith, s.prevs q i j k);
  }

-- The nodes behind `a`, up to the last, that now leads to `n`.
tail :
    (l l' : Links) (a : ℕ) (xs : List ℕ) (b n : ℕ)
    → Seg l a xs b
    → l'.next (last a xs) ≡ n
    → l'.prev n ≡ last a xs
    → NoDup (a ∷ xs)
    → All (λ q. q ≢ last a xs → l'.next q ≡ l.next q) (a ∷ xs)
    → All (λ q. l'.prev q ≡ l.prev q) xs
    → Seg l' a xs n
tail l l' a [] b n s e f d h k = (e, f)
tail l l' a (x ∷ xs) b n s e f d h k = (
  h.0 (λ t. All-last (λ q. q ≢ a) x xs d.0 (sym t)) ∙ s.0,
  k.0 ∙ s.1,
  tail l l' x xs b n s.2 e f d.1 h.1 k.1,
)

All-map : (P Q : ℕ → Type 0) (xs : List ℕ) → ((q : ℕ) → P q → Q q) → All P xs → All Q xs
All-map P Q [] f h = tt
All-map P Q (x ∷ xs) f h = (f x h.0, All-map P Q xs f h.1)

-- Two lists with no node in common.
pub NoDup-append :
    (ys xs : List ℕ) → NoDup ys → NoDup xs → All (λ q. All (λ y. q ≢ y) ys) xs → NoDup (ys ++ xs)
NoDup-append [] xs d e o = e
NoDup-append (y ∷ ys) xs d e o = (
  All-append (λ q. q ≢ y) ys xs d.0 (All-map _ (λ q. q ≢ y) xs (λ q h. h.0) o),
  NoDup-append ys xs d.1 e (All-map _ (λ q. All (λ y. q ≢ y) ys) xs (λ q h. h.1) o),
)

module _ (list head y n : ℕ) (l l' : Links) where
  inner_nexts :
      (z : ℕ) (xs : List ℕ)
      → Spliced list head y z n l l'
      → All (λ q. head ≢ q) xs
      → All (λ q. q ≢ list) xs
      → All (λ q. q ≢ z → l'.next q ≡ l.next q) xs
  inner_nexts z [] s h k = tt
  inner_nexts z (x ∷ xs) s h k =
      (λ d. s.nexts x d (λ e. h.0 (sym e)) k.0, inner_nexts z xs s h.1 k.1)

  inner_prevs :
      (z : ℕ) (xs : List ℕ)
      → Spliced list head y z n l l'
      → All (λ q. n ≢ q) xs
      → All (λ q. q ≢ y) xs
      → All (λ q. q ≢ list) xs
      → All (λ q. l'.prev q ≡ l.prev q) xs
  inner_prevs z [] s g h k = tt
  inner_prevs z (x ∷ xs) s g h k =
      (s.prevs x (λ e. g.0 (sym e)) h.0 k.0, inner_prevs z xs s g.1 h.1 k.1)

-- No node of the one list, its head included, is one of the other.
abbrev pub Disjoint : ℕ → List ℕ → ℕ → List ℕ → Type 0
Disjoint head xs list ys = All (λ q. All (λ z. q ≢ z) (list ∷ ys)) (head ∷ xs)

relinked-Ring :
    (list head y : ℕ) (ys xs : List ℕ) (l l' : Links)
    → Ring l list (y ∷ ys)
    → Ring l head xs
    → Disjoint head xs list (y ∷ ys)
    → Spliced list head y (last y ys) (first xs head) l l'
    → Ring l' head ((y ∷ ys) ++ xs)
relinked-Ring list head y ys xs l l' r t o s =
    let Out : ℕ → Type 0 = λ q. All (λ z. q ≢ z) (list ∷ (y ∷ ys)) in
    let n = first xs head in
    let round : All (λ q. All (λ z. q ≢ z) (list ∷ (y ∷ ys))) (xs ++ (head ∷ [])) =
      All-append (λ q. All (λ z. q ≢ z) (list ∷ (y ∷ ys))) xs (head ∷ []) o.1 (o.0, tt) in
    let far = All-first_behind (λ q. All (λ z. q ≢ z) (list ∷ (y ∷ ys))) [] xs head round in
    let moved =
      tail l l' y ys list n r.linked.2 s.out s.from r.apart.1
        (inner_nexts list head y n l l' (last y ys) (y ∷ ys) s o.0.1 r.apart.0)
        (inner_prevs list head y n l l' (last y ys) ys s far.1.1 r.apart.1.0 r.apart.0.1) in
    record {
      linked =
          relink (λ q. All (λ z. q ≢ z) (list ∷ (y ∷ ys))) l l' head [] [] (y ∷ ys) xs head t.linked
            (s.into, s.back, moved)
            (record {
              nexts = λ q a b. s.nexts q (All-last (λ z. q ≢ z) list (y ∷ ys) b) a b.0;
              prevs = λ q a b. s.prevs q a b.1.0 b.0;
            })
            t.apart (NoDup-rotate head xs t.apart) o round;
      apart = (
        All-append (λ q. q ≢ head) (y ∷ ys) xs
            (All-map (λ q. head ≢ q) (λ q. q ≢ head) (y ∷ ys) (λ q d e. d (sym e)) o.0.1) t.apart.0,
        NoDup-append (y ∷ ys) xs r.apart.1 t.apart.1 (
            All-map (λ q. All (λ z. q ≢ z) (list ∷ (y ∷ ys))) (λ q. All (λ z. q ≢ z) (y ∷ ys)) xs
              (λ q h. h.1) o.1),
      );
    }

list_empty_cons :
    (l : Links) (head x : ℕ) (xs : List ℕ) → Ring l head (x ∷ xs) → list_empty head l ≡ false
unfolding list_empty
list_empty_cons l head x xs r =
    let a : l.next head ≡ x = r.linked.0 in let b : x ≢ head = r.apart.0.0 in ground arith

list_empty_nil : (l : Links) (head : ℕ) → Ring l head [] → list_empty head l ≡ true
unfolding list_empty
list_empty_nil l head r = let a : l.next head ≡ head = r.linked.0 in ground arith

init-Ring : (l : Links) (list : ℕ) → Ring (init_list_head list l) list []
unfolding init_list_head
init-Ring l list = record { linked = (ground arith, ground arith); apart = (tt, tt) }

-- Two lists in memory with no node in common: after `list_splice` and `list_splice_init` the list of `head` has the
-- nodes of the other in front of its own, each in its order and linked both ways, and the second leaves the other list
-- empty.
pub list_splice-Ring :
    (l : Links) (list head : ℕ) (ys xs : List ℕ)
    → Ring l list ys
    → Ring l head xs
    → Disjoint head xs list ys
    → Ring (list_splice list head l) head (ys ++ xs)
      × Ring (list_splice_init list head l) head (ys ++ xs)
      × Ring (list_splice_init list head l) list []
unfolding list_splice list_splice_init
list_splice-Ring l list head [] xs r t o = rw (list_empty_nil l list r) (t, t, r)
list_splice-Ring l list head (y ∷ ys) xs r t o =
    let n = first xs head in
    let round = All-append (λ q. All (λ z. q ≢ z) (list ∷ (y ∷ ys))) xs (head ∷ []) o.1 (o.0, tt) in
    let far = All-first_behind (λ q. All (λ z. q ≢ z) (list ∷ (y ∷ ys))) [] xs head round in
    let end = All-last (λ q. q ≢ list) y ys r.apart.0 in
    let s =
      splice-Spliced list head y (last y ys) n l r.linked.0 (Seg-last l list (y ∷ ys) list r.linked)
        (Seg-first l head xs head t.linked) (λ e. All-last (λ z. head ≢ z) y ys o.0.1 (sym e)) end
        (λ e. o.0.0 (sym e)) far.1.0 in
    let s' =
      init-Spliced list head y (last y ys) n l (splice list head l) s end (λ e. o.0.0 (sym e)) far.0
        r.apart.0.0 in
    rw (list_empty_cons l list y ys r) (
      relinked-Ring list head y ys xs l (splice list head l) r t o s,
      relinked-Ring list head y ys xs l (init_list_head list (splice list head l)) r t o s',
      init-Ring (splice list head l) list,
    )
