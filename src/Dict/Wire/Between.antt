-- ===== src/Dict/Wire/Between.antt =====
-- A dictionary sent from one target to another.
use mathlib.Core.Option
use lz_lib.Base.Int.{pos}
use lz_lib.Base.{
  ℕ, ◌+◌, ◌*◌, ◌^◌, ◌≤◌, ◌<◌, ◌≡◌, ◌≢◌, refl, sym, ap, subst, ◌∙◌, inl, inr, Bool, true, false,
  Option, none, some, List, [], ◌∷◌, arith, All, Bool-cases, length, take, eq_bytes, eq_bytes_iff,
  ok,
}
use lz_lib.ByteOrder.Laws.{swapped_bytes}
use lz_lib.Dict.Store.{Data, Heap}
use lz_lib.Dict.Table.{Dict, Node}
use lz_lib.Dict.Table.Nodes.{view, Distinct}
use lz_lib.Dict.Table.Valid.{IsValid}
use lz_lib.Dict.Wire.{net_bytes, dict_allocate_and_serialize, dict_unserialize}
use lz_lib.Dict.Wire.Entries.{Entry, Carried, Carries, size, entry_bytes, entries_bytes}
use lz_lib.Dict.Wire.Write.{dict_bytes, dict_allocate_and_serialize-dict_bytes}
use lz_lib.Dict.Wire.Fill.{Filling, contents}
use lz_lib.Dict.Wire.Trip.{lookup, Sendable, length-size, dict_unserialize-dict_bytes}

-- Words have the same bytes on the way, whatever the target.
pub net_bytes_same : (one other : Bool) (n : ℕ) → n < 2 ^ 32 → net_bytes one n ≡ net_bytes other n
unfolding net_bytes
net_bytes_same true true n h = refl
net_bytes_same true false n h = swapped_bytes n h
net_bytes_same false true n h = sym (swapped_bytes n h)
net_bytes_same false false n h = refl

entries_bytes_same :
    (one other : Bool) (es : List Entry)
    → size es < 2 ^ 31
    → entries_bytes one es ≡ entries_bytes other es
unfolding entries_bytes entry_bytes
entries_bytes_same one other [] h = refl
entries_bytes_same one other (e ∷ es) h = cc (
  net_bytes_same one other (length e.key) (omega (arith, h)),
  net_bytes_same one other (length e.value) (omega (arith, h)),
  entries_bytes_same one other es (omega (arith, h)),
)

dict_bytes_same :
    (one other : Bool) (es : List Entry)
    → 4 + size es < 2 ^ 31
    → dict_bytes one es ≡ dict_bytes other es
unfolding dict_bytes
dict_bytes_same one other es h = cc (
  net_bytes_same one other (length es) (omega (arith, h, length-size es)),
  entries_bytes_same one other es (omega (arith, h)),
)

-- The bytes of a value as far as its length says.
abbrev pub value_bytes : Heap → ℕ → Option (List ℕ)
value_bytes h p = elim (h.objects p) [ none ↦ none | some x ↦ Option.map (take x.len) x.bytes ]

-- What a dictionary sends for a key.
abbrev pub sent : Heap → List Node → List ℕ → Option (List ℕ)
sent h ns q = elim (view q ns) [ none ↦ none | some p ↦ value_bytes h p ]

value_bytes-Carried :
    (h : Heap) (n : Node) (e : Entry) → Carried h.objects n e → value_bytes h n.value ≡ some e.value
value_bytes-Carried h n e c = rw (value_bytes, c.live, c.has) (ap some c.is_value)

lookup-sent :
    (h : Heap) (ns : List Node) (es : List Entry) (q : List ℕ)
    → Carries h.objects ns es
    → lookup q es ≡ sent h ns q
unfolding view
lookup-sent h [] [] q c = refl
lookup-sent h [] (e ∷ es) q c = absurd c
lookup-sent h (n ∷ ns) [] q c = absurd c
lookup-sent h (n ∷ ns) (e ∷ es) q c =
    let key = c.0.is_key in
    elim (Bool-cases (eq_bytes e.key q)) [
      | inl t ↦
          let t' : eq_bytes n.key q ≡ true = ap (λ k. eq_bytes k q) key ∙ t in
          rw (lookup, t, sent, view, t') (sym (value_bytes-Carried h n e c.0))
      | inr g ↦
          let g' : eq_bytes n.key q ≡ false = ap (λ k. eq_bytes k q) key ∙ g in
          rw (lookup, g, sent, view, g') (lookup-sent h ns es q c.1)
    ]

-- The keys of a valid dictionary differ, and so do those of its entries.
abbrev Text : List Entry → Type 0
Text es = All (λ (e : Entry). All (λ b. b ≢ 0) e.key) es

differ :
    (key : List ℕ) (n : Node) (e : Entry)
    → eq_bytes n.key key ≡ eq_bytes e.key key
    → eq_bytes n.key key ≡ false
    → eq_bytes key e.key ≡ false
differ key n e same apart = elim (Bool-cases (eq_bytes key e.key)) [
  | inr f ↦ f
  | inl t ↦
      let back : eq_bytes e.key key ≡ true =
        (eq_bytes_iff e.key key).1 (sym ((eq_bytes_iff key e.key).0 t)) in
      absurd (cc (back, same, apart))
]

apart-Carries :
    (o : ℕ → Option Data) (key : List ℕ) (i : ℕ) (ns : List Node) (es : List Entry)
    → Carries o ns es
    → All (λ (m : Node). (m.id ≢ i) × (eq_bytes m.key key ≡ false)) ns
    → All (λ (e : Entry). eq_bytes key e.key ≡ false) es
apart-Carries o key i [] [] c h = tt
apart-Carries o key i [] (e ∷ es) c h = absurd c
apart-Carries o key i (n ∷ ns) [] c h = absurd c
apart-Carries o key i (n ∷ ns) (e ∷ es) c h = (
  differ key n e (ap (λ k. eq_bytes k key) c.0.is_key) h.0.1,
  apart-Carries o key i ns es c.1 h.1,
)

Carries-Sendable :
    (o : ℕ → Option Data) (ns : List Node) (es : List Entry)
    → Carries o ns es
    → Distinct ns
    → Text es
    → Sendable es
Carries-Sendable o [] [] c d t = tt
Carries-Sendable o [] (e ∷ es) c d t = absurd c
Carries-Sendable o (n ∷ ns) [] c d t = absurd c
Carries-Sendable o (n ∷ ns) (e ∷ es) c d t = (
  t.0,
  subst (λ k. All (λ (f : Entry). eq_bytes k f.key ≡ false) es) c.0.is_key
      (apart-Carries o n.key n.id ns es c.1 d.0),
  Carries-Sendable o ns es c.1 d.1 t.1,
)

-- A valid dictionary whose pairs carry entries of less than 2 ^ 31 bytes together, with keys that hold no NUL, is
-- serialized on one target. The buffer is read on a target of the same or the other byte order, with memory enough,
-- into an empty dictionary of one bucket. Both calls return 0, and the new dictionary is valid and holds for each key
-- what the old one held, up to the length of the value.
pub dict_unserialize-dict_allocate_and_serialize :
    (one other : Bool) (h : Heap) (d : Dict) (es : List Entry) (h2 : Heap) (d2 : Dict)
    → IsValid d
    → Carries h.objects d.members_list es
    → All (λ (e : Entry). All (λ b. b ≢ 0) e.key) es
    → 4 + size es < 2 ^ 31
    → 0 < h.room
    → d2.members_list ≡ []
    → Filling h2 d2
    → 3 * length es ≤ h2.room
    → (buf : List ℕ) × (len : ℕ) × (h1 : Heap) × (h' : Heap) × (d' : Dict)
      × (dict_allocate_and_serialize one h (some d) ≡ ok (pos 0, some buf, len, h1))
      × (dict_unserialize other h2 (some buf) (pos len) (some d2) ≡ ok (pos 0, h', some d'))
      × IsValid d'
      × ((q : List ℕ) → contents h' d'.members_list q ≡ sent h d.members_list q)
dict_unserialize-dict_allocate_and_serialize one other h d es h2 d2 valid c text small room bare f
      mem =
    let (sized, long, (h1, wrote)) =
      dict_allocate_and_serialize-dict_bytes one h d es valid c small room in
    let send = Carries-Sendable h.objects d.members_list es c valid.distinct text in
    let (h', d', read, valid', holds) =
      dict_unserialize-dict_bytes other es h2 d2 small send bare f mem in
    (
      dict_bytes one es,
      4 + size es,
      h1,
      h',
      d',
      wrote,
      ap (λ b. dict_unserialize other h2 (some b) (pos (4 + size es)) (some d2))
            (dict_bytes_same one other es small)
          ∙ read,
      valid',
      λ q. holds q ∙ lookup-sent h d.members_list es q c,
    )
