-- ===== src/ListHead.antt =====
-- The circular lists of src/list.h: heads linked by `next` and `prev`, in memory.
--
-- A list is known by the address of its own head. Every address stands for a `struct list_head`. The macros that
-- walk a list go by `next` (`walk`).
pub mod Seg
pub mod Relink
pub mod Insert
pub mod Remove
pub mod Splice
pub mod Walk
mod Tests
use lz_lib.Base.{ℕ, zero, suc, Bool, List, [], ◌∷◌, ◌==◌, if◌then◌else◌}

-- `struct list_head`, by address.
pub record Links : Type 0 where
  pub next : ℕ → ℕ
  pub prev : ℕ → ℕ

-- `p->next = v` and `p->prev = v`
abbrev pub put_next : ℕ → ℕ → Links → Links
put_next p v l = record l { next = λ q. if q == p then v else l.next q }

abbrev pub put_prev : ℕ → ℕ → Links → Links
put_prev p v l = record l { prev = λ q. if q == p then v else l.prev q }

-- `INIT_LIST_HEAD`
unfoldable pub init_list_head : ℕ → Links → Links
init_list_head head l = put_next head head (put_prev head head l)

unfoldable pub list_add : ℕ → ℕ → Links → Links
list_add new head l =
    let l1 = put_prev new head l in
    let l2 = put_next new (l1.next head) l1 in
    let l3 = put_next (l2.prev new) new l2 in put_prev (l3.next new) new l3

unfoldable pub list_add_tail : ℕ → ℕ → Links → Links
list_add_tail new head l =
    let l1 = put_next new head l in
    let l2 = put_prev new (l1.prev head) l1 in
    let l3 = put_next (l2.prev new) new l2 in put_prev (l3.next new) new l3

-- The first two assignments of `list_del` and `list_del_init`.
unfoldable pub unlink : ℕ → Links → Links
unlink old l =
    let l1 = put_next (l.prev old) (l.next old) l in put_prev (l1.next old) (l1.prev old) l1

unfoldable pub list_del : ℕ → Links → Links
unfolding unlink
list_del old l = put_prev old 0xcafecafe (put_next old 0xbabebabe (unlink old l))

unfoldable pub list_del_init : ℕ → Links → Links
unfolding unlink
list_del_init old l = put_prev old old (put_next old old (unlink old l))

unfoldable pub list_move : ℕ → ℕ → Links → Links
unfolding list_del list_add
list_move list head l = list_add list head (list_del list l)

unfoldable pub list_move_tail : ℕ → ℕ → Links → Links
unfolding list_del list_add_tail
list_move_tail list head l = list_add_tail list head (list_del list l)

unfoldable pub list_empty : ℕ → Links → Bool
list_empty head l = l.next head == head

-- `__list_splice`
unfoldable pub splice : ℕ → ℕ → Links → Links
splice list head l =
    let l1 = put_next (l.prev list) (l.next head) l in
    let l2 = put_prev (l1.next head) (l1.prev list) l1 in
    let l3 = put_next head (l2.next list) l2 in put_prev (l3.next list) head l3

unfoldable pub list_splice : ℕ → ℕ → Links → Links
unfolding splice list_empty
list_splice list head l = if list_empty list l then l else splice list head l

unfoldable pub list_splice_init : ℕ → ℕ → Links → Links
unfolding splice list_empty init_list_head
list_splice_init list head l =
    if list_empty list l then l else init_list_head list (splice list head l)

-- `list_for_each`, from `pos` on, for `rounds` rounds at most: the positions that are visited.
unfoldable pub walk : ℕ → ℕ → ℕ → Links → List ℕ
walk zero pos head l = []
walk (suc rounds) pos head l =
    let rest = walk rounds (l.next pos) head l in if pos == head then [] else pos ∷ rest
