-- ===== src/Dict/Wire/Trip.antt =====
-- A dictionary that is serialized and read back holds what it held.
use mathlib.Core.List.{append_assoc, append-nil}
use lz_lib.Base.Int.{pos, eqb_ℤ}
use lz_lib.Base.{
  ℕ, ◌+◌, ◌*◌, ◌%◌, ◌^◌, ◌≤◌, ◌<◌, ◌≡◌, ◌≢◌, refl, sym, ap, ◌∙◌, inl, inr, Bool, true, false,
  Option, none, some, List, [], ◌∷◌, ◌++◌, arith, All, Bool-cases, Option-cases, length,
  length-append, eq_bytes, eq_bytes_iff, ok, ◌>>=◌, ltb, if◌then◌else◌,
}
use lz_lib.Dict.Store.{Heap}
use lz_lib.Dict.Table.{Dict, Node}
use lz_lib.Dict.Table.Nodes.{find_key, view}
use lz_lib.Dict.Table.Valid.{IsValid}
use lz_lib.Dict.Wire.{net_bytes, unserialize_pairs, dict_unserialize}
use lz_lib.Dict.Wire.Entries.{Entry, entry_size, size, entry_bytes, entries_bytes, length-net_bytes}
use lz_lib.Dict.Wire.Write.{dict_bytes, length-entry_bytes}
use lz_lib.Dict.Wire.Read.{round-entry_bytes, read_word-net_bytes, beyond-inside}
use lz_lib.Dict.Wire.Fill.{Filling, contents, Round, fill_next}

-- The value of a key among entries.
abbrev pub lookup : List ℕ → List Entry → Option (List ℕ)
lookup q [] = none
lookup q (e ∷ es) = if eq_bytes e.key q then some e.value else lookup q es

-- Entries that can be sent: their keys hold no NUL, and no key stands twice.
abbrev pub Sendable : List Entry → Type 0
Sendable [] = Unit
Sendable (e ∷ es) =
    All (λ b. b ≢ 0) e.key × All (λ (f : Entry). eq_bytes e.key f.key ≡ false) es × Sendable es

-- No key of the entries stands in a dictionary.
abbrev Awaited : List Node → List Entry → Type 0
Awaited ns es = All (λ (e : Entry). find_key e.key ns ≡ none) es

Awaited-step :
    (h : Heap) (d : Dict) (e : Entry) (h2 h3 : Heap) (d3 : Dict) (es : List Entry)
    → Round h d e.key e.value h2 h3 d3
    → All (λ (f : Entry). eq_bytes e.key f.key ≡ false) es
    → Awaited d.members_list es
    → Awaited d3.members_list es
Awaited-step h d e h2 h3 d3 [] r apart a = tt
Awaited-step h d e h2 h3 d3 (f ∷ es) r apart a =
    (r.absent f.key a.0 apart.0, Awaited-step h d e h2 h3 d3 es r apart.1 a.1)

-- A key that differs from all is not found.
lookup-absent :
    (key q : List ℕ) (es : List Entry)
    → All (λ (f : Entry). eq_bytes key f.key ≡ false) es
    → eq_bytes key q ≡ true
    → lookup q es ≡ none
lookup-absent key q [] apart t = refl
lookup-absent key q (f ∷ es) apart t = elim (Bool-cases (eq_bytes f.key q)) [
  | inl u ↦
      let same : key ≡ f.key = (eq_bytes_iff key q).0 t ∙ sym ((eq_bytes_iff f.key q).0 u) in
      let again : eq_bytes key f.key ≡ true = (eq_bytes_iff key f.key).1 same in
      absurd (cc (again, apart.0))
  | inr g ↦ rw (lookup, g) (lookup-absent key q es apart.1 t)
]

-- What a dictionary holds once entries have been put over it.
abbrev over : List Entry → (List ℕ → Option (List ℕ)) → List ℕ → Option (List ℕ)
over es f q = elim (lookup q es) [ none ↦ f q | some v ↦ some v ]

over-cons :
    (e : Entry) (es : List Entry) (f g : List ℕ → Option (List ℕ)) (q : List ℕ)
    → All (λ (x : Entry). eq_bytes e.key x.key ≡ false) es
    → g q ≡ (if eq_bytes e.key q then some e.value else f q)
    → over es g q ≡ over (e ∷ es) f q
over-cons e es f g q apart h = elim (Bool-cases (eq_bytes e.key q)) [
  | inl t ↦ let gone = lookup-absent e.key q es apart t in ground (arith, gone, t, h)
  | inr u ↦ ground (arith, u, h)
]

-- The loop over the bytes of entries, at any place of a buffer.
pairs-entries_bytes :
    (little : Bool) (es : List Entry) (h : Heap) (d : Dict) (buf pre rest : List ℕ) (p total : ℕ)
    → buf ≡ pre ++ (entries_bytes little es ++ rest)
    → p ≡ length pre
    → p + size es ≤ total
    → total < 2 ^ 31
    → Sendable es
    → Awaited d.members_list es
    → Filling h d
    → 3 * length es ≤ h.room
    → (h' : Heap) × (d' : Dict) × (unserialize_pairs little buf (pos total) (length es) (pos p) h d
        ≡ ok (pos 0, h', d'))
      × IsValid d'
      × ((q : List ℕ) → contents h' d'.members_list q ≡ over es (contents h d.members_list) q)
unfolding unserialize_pairs entries_bytes
pairs-entries_bytes little [] h d buf pre rest p total is at room small send wait f mem =
    (h, d, refl, f.valid, λ q. refl)
pairs-entries_bytes little (e ∷ es) h d buf pre rest p total is at room small send wait f mem =
    let (h2, h3, d3, r) = fill_next h d e.key e.value f wait.0 (omega (arith, mem)) in
    let front : buf ≡ pre ++ (entry_bytes little e ++ (entries_bytes little es ++ rest)) =
      is
      ∙ ap (λ t. pre ++ t) (append_assoc (entry_bytes little e) (entries_bytes little es) rest) in
    let run =
      round-entry_bytes little h d e pre (entries_bytes little es ++ rest) (length es) total buf p
        h2 h.next front at (omega (arith, room)) (omega (arith, room, small)) send.0 r.made in
    let (h', d', more, valid, holds) =
      pairs-entries_bytes little es h3 d3 buf (pre ++ entry_bytes little e) rest (p + entry_size e)
        total
        (front ∙ sym (append_assoc pre (entry_bytes little e) (entries_bytes little es ++ rest)))
        (omega (arith, at, length-append pre (entry_bytes little e), length-entry_bytes little e))
        (omega (arith, room)) small send.2 (Awaited-step h d e h2 h3 d3 es r send.1 wait.1)
        r.filling (omega (arith, mem, r.room)) in
    (
      h',
      d',
      run
          ∙ ap
              (λ m. m >>= λ s.
                unserialize_pairs little buf (pos total) (length es) (pos (p + entry_size e)) s.1
                  s.2)
              r.run
          ∙ more,
      valid,
      λ q.
          holds q
          ∙ over-cons e es (contents h d.members_list) (contents h3 d3.members_list) q send.1
              (r.holds q),
    )

pub length-size : (es : List Entry) → length es ≤ size es
length-size [] = omega arith
length-size (e ∷ es) = omega (arith, length-size es)

Awaited-bare : (ns : List Node) (es : List Entry) → ns ≡ [] → Awaited ns es
unfolding find_key
Awaited-bare ns [] bare = tt
Awaited-bare ns (e ∷ es) bare = (rw bare refl, Awaited-bare ns es bare)

over-bare :
    (h : Heap) (ns : List Node) (es : List Entry) (q : List ℕ)
    → ns ≡ []
    → over es (contents h ns) q ≡ lookup q es
unfolding view
over-bare h ns es q bare = elim (Option-cases (lookup q es)) [
  | inl e ↦ rw (over, e, contents, bare) refl
  | inr (v, e) ↦ rw (over, e) refl
]

-- The bytes of sendable entries, of less than 2 ^ 31 bytes together, read into an empty dictionary of one bucket with
-- three allocations for each entry: `dict_unserialize` returns 0, and the dictionary is valid and holds for each key
-- the value of its entry, and nothing for any other.
pub dict_unserialize-dict_bytes :
    (little : Bool) (es : List Entry) (h : Heap) (d : Dict)
    → 4 + size es < 2 ^ 31
    → Sendable es
    → d.members_list ≡ []
    → Filling h d
    → 3 * length es ≤ h.room
    → (h' : Heap) × (d' : Dict) × (dict_unserialize little h
          (some (dict_bytes little es))
          (pos (4 + size es))
          (some d)
        ≡ ok (pos 0, h', some d'))
      × IsValid d'
      × ((q : List ℕ) → contents h' d'.members_list q ≡ lookup q es)
unfolding dict_unserialize dict_bytes find_key view
dict_unserialize-dict_bytes little es h d small send bare f mem =
    let d0 : Dict = record d { count = 0 } in
    let counted : 0 ≡ length d.members_list % 2 ^ 32 = rw bare refl in
    let f0 : Filling h d0 = record {
      valid = record {
        width = f.valid.width;
        sized = f.valid.sized;
        chains = f.valid.chains;
        distinct = f.valid.distinct;
        counted = counted;
      };
      owns = f.owns;
      single = f.single;
      unused = f.unused;
    } in
    let buf = dict_bytes little es in
    let few = length-size es in
    let a = net_bytes little (length es) in
    let first =
      read_word-net_bytes little buf [] (entries_bytes little es) 0 (length es) refl refl
        (omega (arith, few, small)) in
    let (h', d', run, valid, holds) =
      pairs-entries_bytes little es h d0 buf a [] 4 (4 + size es)
        (ap (λ t. a ++ t) (sym (append-nil (entries_bytes little es))))
        (sym (length-net_bytes little (length es))) (omega arith) small send
        (Awaited-bare d.members_list es bare) f0 mem in
    let some_bytes : eqb_ℤ (pos (4 + size es)) (pos 0) ≡ false = ground arith in
    let fits : ltb (length es) (2 ^ 31) ≡ true = ground (arith, few, small) in
    (
      h',
      d',
      rw
          (
            dict_unserialize,
            some_bytes,
            beyond-inside (4 + size es) 0 4 (omega arith),
            first,
            ◌>>=◌,
            fits,
            run,
          )
          refl,
      valid,
      λ q. holds q ∙ over-bare h d.members_list es q bare,
    )
