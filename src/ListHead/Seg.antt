-- ===== src/ListHead/Seg.antt =====
-- Stretches of a list in memory, and what leaves them alone.
use lz_lib.Base.{ℕ, ◌≡◌, ◌≢◌, sym, ◌∙◌, List, [], ◌∷◌, ◌++◌, All, All-append}
use lz_lib.ListHead.{Links}

-- The nodes `xs` stand between `a` and `b`, linked both ways.
abbrev pub Seg : Links → ℕ → List ℕ → ℕ → Type 0
Seg l a [] b = (l.next a ≡ b) × (l.prev b ≡ a)
Seg l a (x ∷ xs) b = (l.next a ≡ x) × (l.prev x ≡ a) × Seg l x xs b

abbrev pub NoDup : List ℕ → Type 0
NoDup [] = Unit
NoDup (x ∷ xs) = All (λ y. y ≢ x) xs × NoDup xs

-- The list of `head` has the nodes `xs`, in this order.
pub record Ring (l : Links) (head : ℕ) (xs : List ℕ) : Type 0 where
  pub linked : Seg l head xs head
  pub apart : NoDup (head ∷ xs)

-- The node before and the node behind a place.
abbrev pub last : ℕ → List ℕ → ℕ
last a [] = a
last a (x ∷ xs) = last x xs

abbrev pub first : List ℕ → ℕ → ℕ
first [] b = b
first (x ∷ xs) b = x

module _ (P : ℕ → Type 0) where
  pub All-last : (a : ℕ) (xs : List ℕ) → All P (a ∷ xs) → P (last a xs)
  All-last a [] h = h.0
  All-last a (x ∷ xs) h = All-last x xs h.1

  pub All-back : (xs ys : List ℕ) → All P (xs ++ ys) → All P ys
  All-back [] ys h = h
  All-back (x ∷ xs) ys h = All-back xs ys h.1

  pub All-front : (xs ys : List ℕ) → All P (xs ++ ys) → All P xs
  All-front [] ys h = tt
  All-front (x ∷ xs) ys h = (h.0, All-front xs ys h.1)

  pub All-first : (xs : List ℕ) (b : ℕ) → All P (xs ++ b ∷ []) → P (first xs b)
  All-first [] b h = h.0
  All-first (x ∷ xs) b h = h.0

-- A stretch stays if no `next` of its nodes and no `prev` of the nodes behind them changes.
pub Seg-frame :
    (l l' : Links) (a : ℕ) (xs : List ℕ) (b : ℕ)
    → All (λ q. l'.next q ≡ l.next q) (a ∷ xs)
    → All (λ q. l'.prev q ≡ l.prev q) (xs ++ b ∷ [])
    → Seg l a xs b
    → Seg l' a xs b
Seg-frame l l' a [] b n p s = (n.0 ∙ s.0, p.0 ∙ s.1)
Seg-frame l l' a (x ∷ xs) b n p s = (n.0 ∙ s.0, p.0 ∙ s.1, Seg-frame l l' x xs b n.1 p.1 s.2)

pub Seg-first : (l : Links) (a : ℕ) (xs : List ℕ) (b : ℕ) → Seg l a xs b → l.next a ≡ first xs b
Seg-first l a [] b s = s.0
Seg-first l a (x ∷ xs) b s = s.0

pub Seg-last : (l : Links) (a : ℕ) (xs : List ℕ) (b : ℕ) → Seg l a xs b → l.prev b ≡ last a xs
Seg-last l a [] b s = s.1
Seg-last l a (x ∷ xs) b s = Seg-last l x xs b s.2

pub NoDup-rotate : (head : ℕ) (xs : List ℕ) → NoDup (head ∷ xs) → NoDup (xs ++ head ∷ [])
NoDup-rotate head [] d = (tt, tt)
NoDup-rotate head (x ∷ xs) d = (
  All-append (λ y. y ≢ x) xs (head ∷ []) d.1.0 (λ e. d.0.0 (sym e), tt),
  NoDup-rotate head xs (d.0.1, d.1.1),
)
