-- ===== src/ListHead/Insert.antt =====
-- `list_add` and `list_add_tail`.
use lz_lib.Base.{ℕ, ◌≡◌, ◌≢◌, sym, subst, ◌∙◌, List, [], ◌∷◌, ◌++◌, All, All-append, arith}
use mathlib.Core.List.{append-nil}
use lz_lib.ListHead.{Links, list_add, list_add_tail}
use lz_lib.ListHead.Seg.{Seg, NoDup, Ring, last, first, Seg-first, Seg-last, All-last, NoDup-rotate}
use lz_lib.ListHead.Relink.{Kept, relink, All-first_behind}

-- `new` between `p` and `n`, and nothing else.
record Inserted (new p n : ℕ) (l l' : Links) : Type 0 where
  between : Seg l' p (new ∷ []) n
  kept : Kept (λ q. q ≢ new) p n l l'

list_add-Inserted :
    (new head : ℕ) (l : Links)
    → head ≢ new
    → l.next head ≢ new
    → Inserted new head (l.next head) l (list_add new head l)
unfolding list_add
list_add-Inserted new head l h k = record {
  between = (ground arith, ground arith, (ground arith, ground arith));
  kept = record { nexts = λ q a b. ground arith; prevs = λ q a b. ground arith };
}

list_add_tail-Inserted :
    (new head : ℕ) (l : Links)
    → head ≢ new
    → l.prev head ≢ new
    → Inserted new (l.prev head) head l (list_add_tail new head l)
unfolding list_add_tail
list_add_tail-Inserted new head l h k = record {
  between = (ground arith, ground arith, (ground arith, ground arith));
  kept = record { nexts = λ q a b. ground arith; prevs = λ q a b. ground arith };
}

NoDup-insert :
    (new : ℕ) (before after : List ℕ)
    → All (λ q. q ≢ new) (before ++ after)
    → NoDup (before ++ after)
    → NoDup (before ++ (new ∷ after))
NoDup-insert new [] after o d = (o, d)
NoDup-insert new (x ∷ xs) after o d =
    (All-insert new x xs after (λ e. o.0 (sym e)) d.0, NoDup-insert new xs after o.1 d.1)
  where
    All-insert :
        (new x : ℕ) (xs after : List ℕ)
        → new ≢ x
        → All (λ y. y ≢ x) (xs ++ after)
        → All (λ y. y ≢ x) (xs ++ (new ∷ after))
    All-insert new x [] after e h = (e, h)
    All-insert new x (y ∷ ys) after e h = (h.0, All-insert new x ys after e h.1)

insert-Ring :
    (l l' : Links) (head new : ℕ) (before after : List ℕ)
    → Ring l head (before ++ after)
    → All (λ q. q ≢ new) (head ∷ (before ++ after))
    → Inserted new (last head before) (first after head) l l'
    → Ring l' head (before ++ (new ∷ after))
insert-Ring l l' head new before after r out i = record {
  linked =
      relink (λ q. q ≢ new) l l' head before [] (new ∷ []) after head r.linked i.between i.kept
        r.apart (NoDup-rotate head (before ++ after) r.apart) out
        (All-append (λ q. q ≢ new) (before ++ after) (head ∷ []) out.1 (out.0, tt));
  apart = NoDup-insert new (head ∷ before) after out r.apart;
}

-- A node that stands in no place of the list, put in front by `list_add` and at the end by `list_add_tail`: the list
-- has then this node and the others, in their order and linked both ways.
list_add-Ring :
    (l : Links) (head new : ℕ) (xs : List ℕ)
    → Ring l head xs
    → All (λ q. q ≢ new) (head ∷ xs)
    → Ring (list_add new head l) head (new ∷ xs)
      × Ring (list_add_tail new head l) head (xs ++ (new ∷ []))
list_add-Ring l head new xs r out =
    let behind : l.next head ≡ first xs head = Seg-first l head xs head r.linked in
    let before : l.prev head ≡ last head xs = Seg-last l head xs head r.linked in
    let all : xs ++ [] ≡ xs = append-nil xs in
    (
      insert-Ring l (list_add new head l) head new [] xs r out (
          subst (λ n. Inserted new head n l (list_add new head l)) behind
            (list_add-Inserted new head l out.0 (λ e.
              All-first_behind (λ q. q ≢ new) [] xs head
                (All-append (λ q. q ≢ new) xs (head ∷ []) out.1 (out.0, tt)) (sym behind ∙ e)))),
      insert-Ring l (list_add_tail new head l) head new xs []
          (subst (λ t. Ring l head t) (sym all) r)
          (subst (λ t. All (λ q. q ≢ new) (head ∷ t)) (sym all) out)
          (subst (λ p. Inserted new p head l (list_add_tail new head l)) before
            (list_add_tail-Inserted new head l out.0
              (λ e. All-last (λ q. q ≢ new) head xs out (sym before ∙ e)))),
    )
