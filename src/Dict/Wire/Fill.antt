-- ===== src/Dict/Wire/Fill.antt =====
-- A dictionary while it is filled from a buffer: what one round adds to it.
use lz_lib.Base.Int.{pos}
use lz_lib.Base.{
  ℕ, ◌+◌, ◌-◌, ◌≤◌, ◌<◌, ◌≡◌, refl, sym, subst, ◌∙◌, inl, inr, true, false, Option, none, some,
  List, ◌∷◌, arith, Bool-cases, Option-cases, length, eq_bytes, ok, ◌==◌, if◌then◌else◌,
}
use lz_lib.Dict.Store.{Data, Heap, blank_data, put, get_new_data}
use lz_lib.Dict.Table.{Dict, Node, dict_set_key}
use lz_lib.Dict.Table.Nodes.{find_key, view, view-find_key}
use lz_lib.Dict.Table.Refs.{holders, holders-pos, bytes_of}
use lz_lib.Dict.Table.Valid.{IsValid, Owns, LinksHome-single}
use lz_lib.Dict.Table.Ops.{insert-After, calloc-some, All-raise}
use lz_lib.Dict.Wire.{new_value}

-- A dictionary of one bucket that may be filled: it is valid, its values are counted, and the addresses that
-- `calloc` will return hold no object.
pub record Filling (h : Heap) (d : Dict) : Type 0 where
  pub valid : IsValid d
  pub owns : Owns h d.members_list
  pub single : d.hash_size ≡ 1
  pub unused : (p : ℕ) → h.next ≤ p → h.objects p ≡ none

-- The bytes that a dictionary holds for a key.
abbrev pub contents : Heap → List Node → List ℕ → Option (List ℕ)
contents h ns q = elim (view q ns) [ none ↦ none | some p ↦ bytes_of h p ]

-- The heap behind `new_value`.
abbrev pub with_value : Heap → ℕ → Option (List ℕ) → Heap
with_value h len bytes = record h {
  objects = λ p.
      if p == h.next
      then some (record blank_data { len = len; bytes = bytes; is_static = true })
      else h.objects p;
  next = h.next + 1;
  room = h.room - 1;
}

new_value-with_value :
    (h : Heap) (len : ℕ) (bytes : Option (List ℕ))
    → 0 < h.room
    → (h2 : Heap) × (new_value h len bytes ≡ ok (h.next, h2))
      × (h2.next ≡ h.next + 1)
      × (h2.room + 1 ≡ h.room)
      × ((p : ℕ)
          → h2.objects p ≡ (
              if p == h.next
              then some (record blank_data { len = len; bytes = bytes; is_static = true })
              else h.objects p))
unfolding new_value get_new_data
new_value-with_value h len bytes room =
    let h1 : Heap = record h { next = h.next + 1; room = h.room - 1 } in
    let h2 =
      put (put h1 h.next (some blank_data)) h.next
        (some (record blank_data { len = len; bytes = bytes; is_static = true })) in
    (h2, rw (new_value, calloc-some h room) refl, refl, omega (arith, room), λ p. ground arith)

-- A value that a pair holds is an object.
view-held : (q : List ℕ) (ns : List Node) (p : ℕ) → view q ns ≡ some p → 0 < holders p ns
view-held q ns p e = elim (Option-cases (find_key q ns)) [
  | inl none_there ↦ absurd (ground (arith, view-find_key q ns))
  | inr (n, there) ↦
      let same : n.value ≡ p = ground (arith, view-find_key q ns) in
      subst (λ v. 0 < holders v ns) same (holders-pos q ns n there)
]

-- The contents of the pairs that were there.
old_contents :
    (h h3 : Heap) (d : Dict) (bytes q : List ℕ)
    → Filling h d
    → ((p : ℕ) → bytes_of h3 p ≡ (if p == h.next then some bytes else bytes_of h p))
    → contents h3 d.members_list q ≡ contents h d.members_list q
old_contents h h3 d bytes q f kept = elim (Option-cases (view q d.members_list)) [
  | inl e ↦ rw (contents, e) refl
  | inr (p, e) ↦
      let there = view-held q d.members_list p e in
      rw (contents, e) (ground (arith, kept p, there, f.owns.held p, f.unused p))
]

added_contents :
    (h h3 : Heap) (d : Dict) (key bytes : List ℕ) (i : ℕ) (q : List ℕ)
    → Filling h d
    → ((p : ℕ) → bytes_of h3 p ≡ (if p == h.next then some bytes else bytes_of h p))
    → contents h3 (record { id = i; key = key; value = h.next } ∷ d.members_list) q
      ≡ (if eq_bytes key q then some bytes else contents h d.members_list q)
unfolding view
added_contents h h3 d key bytes i q f kept = elim (Bool-cases (eq_bytes key q)) [
  | inl t ↦ rw (contents, view, t) (ground (arith, kept h.next))
  | inr g ↦ rw (contents, view, g) (old_contents h h3 d bytes q f kept)
]

-- One round: a new value, set at a key that is not there.
pub record Round (h : Heap) (d : Dict) (key : List ℕ) (bytes : List ℕ) (h2 h3 : Heap) (d3 : Dict)
    : Type 0 where
  pub made : new_value h (length bytes) (some bytes) ≡ ok (h.next, h2)
  pub run : dict_set_key h2 d key h.next ≡ ok (pos 0, h3, d3)
  pub filling : Filling h3 d3
  pub room : h3.room + 3 ≡ h.room
  pub absent :
      (q : List ℕ)
      → find_key q d.members_list ≡ none
      → eq_bytes key q ≡ false
      → find_key q d3.members_list ≡ none
  pub holds :
      (q : List ℕ)
      → contents h3 d3.members_list q
        ≡ (if eq_bytes key q then some bytes else contents h d.members_list q)

pub fill_next :
    (h : Heap) (d : Dict) (key bytes : List ℕ)
    → Filling h d
    → find_key key d.members_list ≡ none
    → 3 ≤ h.room
    → (h2 : Heap) × (h3 : Heap) × (d3 : Dict) × Round h d key bytes h2 h3 d3
unfolding find_key view
fill_next h d key bytes f absent room =
    let (h2, made, n2, r2, o2) =
      new_value-with_value h (length bytes) (some bytes) (omega (arith, room)) in
    let x : Data = record blank_data { len = length bytes; bytes = some bytes; is_static = true } in
    let live : h2.objects h.next ≡ some x = ground (arith, o2 h.next) in
    let owns2 : Owns h2 d.members_list = record {
      held = λ p. ground (arith, o2 p, f.owns.held p, f.unused h.next);
      words = λ p. ground (arith, o2 p, f.owns.words p);
      used = All-raise h.next h2.next d.members_list (omega (arith, n2)) f.owns.used;
    } in
    let (h3, d3, run, after, adds) =
      insert-After key f.valid owns2 h.next x live (omega arith) absent
        (LinksHome-single d key f.single) (omega (arith, room, r2)) in
    let kept : (p : ℕ) → bytes_of h3 p ≡ (if p == h.next then some bytes else bytes_of h p) =
      λ p. ground (arith, adds.bytes p, o2 p) in
    (
      h2,
      h3,
      d3,
      record {
        made = made;
        run = run;
        filling = record {
          valid = after.valid;
          owns = after.owns;
          single = adds.width ∙ f.single;
          unused = λ p low. adds.unused p (ground (arith, o2 p, f.unused p, adds.next, n2));
        };
        room = omega (arith, adds.room, r2);
        absent = λ q gone other.
            subst (λ (xs : List Node). find_key q xs ≡ none) (sym adds.list)
              (ground (arith, gone, other));
        holds = λ q.
            subst
              (λ (xs : List Node).
                contents h3 xs q
                ≡ (if eq_bytes key q then some bytes else contents h d.members_list q))
              (sym adds.list) (added_contents h h3 d key bytes h2.next q f kept);
      },
    )
