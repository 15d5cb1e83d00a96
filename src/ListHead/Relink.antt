-- ===== src/ListHead/Relink.antt =====
-- Putting other nodes in place of a stretch of a list.
use lz_lib.Base.{ℕ, ◌≡◌, ◌≢◌, sym, subst, ◌∙◌, List, [], ◌∷◌, ◌++◌, All}
use mathlib.Core.List.{append-nil}
use lz_lib.ListHead.{Links}
use lz_lib.ListHead.Seg.{Seg, NoDup, last, first, Seg-frame}

-- What a change between `p` and `n` leaves alone: the other links of the nodes that are `Out` of it.
pub record Kept (Out : ℕ → Type 0) (p n : ℕ) (l l' : Links) : Type 0 where
  pub nexts : (q : ℕ) → q ≢ p → Out q → l'.next q ≡ l.next q
  pub prevs : (q : ℕ) → q ≢ n → Out q → l'.prev q ≡ l.prev q

pub Seg-join :
    (l : Links) (a : ℕ) (xs : List ℕ) (y : ℕ) (ys : List ℕ) (b : ℕ)
    → Seg l a xs y
    → Seg l y ys b
    → Seg l a (xs ++ y ∷ ys) b
Seg-join l a [] y ys b s t = (s.0, s.1, t)
Seg-join l a (x ∷ xs) y ys b s t = (s.0, s.1, Seg-join l x xs y ys b s.2 t)

pub Seg-rest :
    (l : Links) (a : ℕ) (xs : List ℕ) (y : ℕ) (ys : List ℕ) (b : ℕ)
    → Seg l a (xs ++ y ∷ ys) b
    → Seg l y ys b
Seg-rest l a [] y ys b s = s.2
Seg-rest l a (x ∷ xs) y ys b s = Seg-rest l x xs y ys b s.2

module _ (P : ℕ → Type 0) where
  -- What holds behind a stretch holds at the first node behind it.
  pub All-first_behind :
      (xs after : List ℕ) (b : ℕ) → All P ((xs ++ after) ++ b ∷ []) → P (first after b)
  All-first_behind [] [] b h = h.0
  All-first_behind [] (y ∷ ys) b h = h.0
  All-first_behind (x ∷ xs) after b h = All-first_behind xs after b h.1

  pub All-last_before : (a : ℕ) (xs after : List ℕ) → All P (a ∷ (xs ++ after)) → P (last a xs)
  All-last_before a [] after h = h.0
  All-last_before a (x ∷ xs) after h = All-last_before x xs after h.1

module _ (Out : ℕ → Type 0) (l l' : Links) where
  same_nexts :
      (p n : ℕ) (xs : List ℕ)
      → Kept Out p n l l'
      → All (λ q. q ≢ p) xs
      → All Out xs
      → All (λ q. l'.next q ≡ l.next q) xs
  same_nexts p n [] k d o = tt
  same_nexts p n (x ∷ xs) k d o = (k.nexts x d.0 o.0, same_nexts p n xs k d.1 o.1)

  same_prevs :
      (p n : ℕ) (xs : List ℕ)
      → Kept Out p n l l'
      → All (λ q. q ≢ n) xs
      → All Out xs
      → All (λ q. l'.prev q ≡ l.prev q) xs
  same_prevs p n [] k d o = tt
  same_prevs p n (x ∷ xs) k d o = (k.prevs x d.0 o.0, same_prevs p n xs k d.1 o.1)

  -- In place of the stretch `mid` there is now `mid'`.
  pub relink :
      (a : ℕ) (before mid mid' after : List ℕ) (b : ℕ)
      → Seg l a (before ++ (mid ++ after)) b
      → Seg l' (last a before) mid' (first after b)
      → Kept Out (last a before) (first after b) l l'
      → NoDup (a ∷ (before ++ after))
      → NoDup ((before ++ after) ++ b ∷ [])
      → All Out (a ∷ (before ++ after))
      → All Out ((before ++ after) ++ b ∷ [])
      → Seg l' a (before ++ (mid' ++ after)) b
  relink a [] mid mid' [] b s new k d e o r =
      subst (λ xs. Seg l' a xs b) (sym (append-nil mid')) new
  relink a [] mid mid' (y ∷ ys) b s new k d e o r = Seg-join l' a mid' y ys b new (
      Seg-frame l l' y ys b (same_nexts a y (y ∷ ys) k d.0 o.1)
        (same_prevs a y (ys ++ b ∷ []) k e.0 r.1) (Seg-rest l a mid y ys b s))
  relink a (x ∷ xs) mid mid' after b s new k d e o r = (
    k.nexts a (λ t. All-last_before (λ q. q ≢ a) x xs after d.0 (sym t)) o.0 ∙ s.0,
    k.prevs x (λ t. All-first_behind (λ q. q ≢ x) xs after b e.0 (sym t)) r.0 ∙ s.1,
    relink x xs mid mid' after b s.2 new k d.1 e.1 o.1 r.1,
  )
