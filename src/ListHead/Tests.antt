-- ===== src/ListHead/Tests.antt =====
-- Lists of src/list.h on a few addresses.
use lz_lib.Base.{◌≡◌, refl, [], ◌∷◌, arith}
use lz_lib.ListHead.{
  Links, init_list_head, list_add, list_add_tail, list_del, list_del_init, list_splice,
  list_splice_init, list_move, list_move_tail, walk, unlink,
}
use lz_lib.ListHead.Seg.{Ring}
use lz_lib.ListHead.Remove.{list_del-Ring}
use lz_lib.ListHead.Splice.{list_splice-Ring}

-- Every link leads to address 0.
abbrev wild : Links
wild = record { next = λ q. 0; prev = λ q. 0 }

abbrev empty10 : Links
unfolding init_list_head
empty10 = init_list_head 10 wild

abbrev one : Links
unfolding list_add
one = list_add 5 10 empty10

abbrev two : Links
unfolding list_add_tail
two = list_add_tail 6 10 one

-- The list of 20 has one node, 7.
abbrev both : Links
unfolding init_list_head list_add
both = list_add 7 20 (init_list_head 20 two)

empty10-Ring : Ring empty10 10 []
unfolding empty10
empty10-Ring = record { linked = (refl, refl); apart = (tt, tt) }

one-Ring : Ring one 10 (5 ∷ [])
unfolding one empty10
one-Ring = record { linked = (refl, refl, (refl, refl)); apart = omega arith }

two-Ring : Ring two 10 (5 ∷ (6 ∷ []))
unfolding two one empty10
two-Ring = record { linked = (refl, refl, (refl, refl, (refl, refl))); apart = omega arith }

both_first : Ring both 10 (5 ∷ (6 ∷ []))
unfolding both two one empty10
both_first = record { linked = (refl, refl, (refl, refl, (refl, refl))); apart = omega arith }

both_second : Ring both 20 (7 ∷ [])
unfolding both two one empty10
both_second = record { linked = (refl, refl, (refl, refl)); apart = omega arith }

visited : walk 5 (two.next 10) 10 two ≡ 5 ∷ (6 ∷ [])
unfolding walk two one empty10
visited = refl

moved : walk 5 ((list_move 6 10 two).next 10) 10 (list_move 6 10 two) ≡ 6 ∷ (5 ∷ [])
unfolding walk list_move list_add list_del unlink two one empty10
moved = refl

moved_tail : walk 5 ((list_move_tail 5 10 two).next 10) 10 (list_move_tail 5 10 two) ≡ 6 ∷ (5 ∷ [])
unfolding walk list_move_tail list_add_tail list_del unlink two one empty10
moved_tail = refl

list_del-Ring_example :
    Ring (list_del 6 two) 10 (5 ∷ [])
    × Ring (list_del_init 6 two) 10 (5 ∷ [])
    × Ring (list_del_init 6 two) 6 []
list_del-Ring_example = list_del-Ring two 10 6 (5 ∷ []) [] two-Ring

list_splice-Ring_example :
    Ring (list_splice 20 10 both) 10 (7 ∷ (5 ∷ (6 ∷ [])))
    × Ring (list_splice_init 20 10 both) 10 (7 ∷ (5 ∷ (6 ∷ [])))
    × Ring (list_splice_init 20 10 both) 20 []
list_splice-Ring_example =
    list_splice-Ring both 20 10 (7 ∷ []) (5 ∷ (6 ∷ [])) both_second both_first (omega arith)
