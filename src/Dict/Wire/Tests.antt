-- ===== src/Dict/Wire/Tests.antt =====
-- A dictionary of two pairs on its way from one target to another.
use lz_lib.Base.Int.{pos, ◌+ℤ◌}
use lz_lib.Base.{
  ℕ, zero, suc, ◌<◌, ◌≡◌, ◌≢◌, refl, true, false, none, some, List, [], ◌∷◌, arith, All, ◌==◌,
  if◌then◌else◌, get_elem?, length, eq_bytes, ok, fault, bad_access, ◌>>=◌,
}
use lz_lib.Hash.{super_fast_hash}
use lz_lib.Dict.Store.{Data, Heap, blank_data}
use lz_lib.Dict.Table.{Dict, Node}
use lz_lib.Dict.Table.Chains.{homed}
use lz_lib.Dict.Table.Refs.{holders}
use lz_lib.Dict.Table.Valid.{IsValid}
use lz_lib.Dict.Wire.{dict_serialized_length, dict_allocate_and_serialize, dict_unserialize}
use lz_lib.Dict.Wire.Entries.{Entry, Carried, Carries}
use lz_lib.Dict.Wire.Write.{dict_bytes, dict_allocate_and_serialize-dict_bytes}
use lz_lib.Dict.Wire.Fill.{Filling, contents}
use lz_lib.Dict.Wire.Between.{sent, dict_unserialize-dict_allocate_and_serialize}

abbrev name : List ℕ
name = b'a' ∷ b'b' ∷ []

abbrev other_name : List ℕ
other_name = b'c' ∷ []

abbrev value : Data
value = record blank_data { refcount = 1; len = 3; bytes = some (7 ∷ 0 ∷ 9 ∷ 5 ∷ []) }

abbrev heap : Heap
heap = record { objects = λ p. if p == 3 then some value else none; next = 9; room = 6 }

abbrev pairs : List Node
pairs =
    record { id = 7; key = name; value = 3 } ∷ record { id = 8; key = other_name; value = 3 } ∷ []

abbrev two : Dict
two = record {
  is_static = false;
  hash_size = 1;
  count = 2;
  refcount = 1;
  members = (7 ∷ 8 ∷ []) ∷ [];
  members_list = pairs;
}

two-chains : (i : ℕ) → i < 1 → get_elem? two.members i ≡ some (homed 1 i pairs)
unfolding homed super_fast_hash
two-chains zero low = refl
two-chains (suc i) low = absurd (omega arith)

two-IsValid : IsValid two
unfolding eq_bytes
two-IsValid = record {
  width = refl;
  sized = omega arith;
  chains = two-chains;
  distinct = (((λ e. absurd (omega (arith, e)), refl), tt), (tt, tt));
  counted = omega arith;
}

abbrev entries : List Entry
entries =
    record { key = name; value = 7 ∷ 0 ∷ 9 ∷ [] }
    ∷ record { key = other_name; value = 7 ∷ 0 ∷ 9 ∷ [] }
    ∷ []

carried :
    (n : Node) (key : List ℕ)
    → n.value ≡ 3
    → n.key ≡ key
    → Carried heap.objects n (record { key = key; value = 7 ∷ 0 ∷ 9 ∷ [] })
carried n key at is = record {
  object = value;
  live = rw at refl;
  plain = refl;
  bytes = 7 ∷ 0 ∷ 9 ∷ 5 ∷ [];
  has = refl;
  long = omega arith;
  is_value = refl;
  is_key = is;
}

two-Carries : Carries heap.objects pairs entries
two-Carries = (
  carried (record { id = 7; key = name; value = 3 }) name refl refl,
  (carried (record { id = 8; key = other_name; value = 3 }) other_name refl refl, tt),
)

dict_allocate_and_serialize-dict_bytes_example :
    (dict_serialized_length heap (some two) ≡ ok (pos 31))
    × (length (dict_bytes true entries) ≡ 31)
    × ((h' : Heap) × (dict_allocate_and_serialize true heap (some two)
          ≡ ok (pos 0, some (dict_bytes true entries), 31, h')))
dict_allocate_and_serialize-dict_bytes_example =
    dict_allocate_and_serialize-dict_bytes true heap two entries two-IsValid two-Carries
      (omega arith) (omega arith)

two_bytes :
    dict_bytes true entries
    ≡ 0 ∷ 0 ∷ 0 ∷ 2 ∷ 0 ∷ 0 ∷ 0 ∷ 2 ∷ 0 ∷ 0 ∷ 0 ∷ 3 ∷ b'a' ∷ b'b' ∷ 0 ∷ 7 ∷ 0 ∷ 9 ∷ 0 ∷ 0 ∷ 0 ∷ 1
      ∷ 0 ∷ 0 ∷ 0 ∷ 3 ∷ b'c' ∷ 0 ∷ 7 ∷ 0 ∷ 9 ∷ []
unfolding dict_bytes
two_bytes = refl

abbrev far_heap : Heap
far_heap = record { objects = λ p. none; next = 1; room = 6 }

abbrev bare : Dict
bare = record {
  is_static = false;
  hash_size = 1;
  count = 0;
  refcount = 1;
  members = [] ∷ [];
  members_list = [];
}

bare-chains : (i : ℕ) → i < 1 → get_elem? bare.members i ≡ some (homed 1 i [])
unfolding homed
bare-chains zero low = refl
bare-chains (suc i) low = absurd (omega arith)

bare-Filling : Filling far_heap bare
unfolding holders
bare-Filling = record {
  valid = record {
    width = refl;
    sized = omega arith;
    chains = bare-chains;
    distinct = tt;
    counted = omega arith;
  };
  owns = record { held = λ p. omega arith; words = λ p. omega arith; used = tt };
  single = refl;
  unused = λ p low. refl;
}

is_text : All (λ (e : Entry). All (λ b. b ≢ 0) e.key) entries
is_text = (
  (λ e. absurd (omega (arith, e)), (λ e. absurd (omega (arith, e)), tt)),
  ((λ e. absurd (omega (arith, e)), tt), tt),
)

dict_unserialize-dict_allocate_and_serialize_example :
    (buf : List ℕ) × (len : ℕ) × (h1 : Heap) × (h' : Heap) × (d' : Dict)
    × (dict_allocate_and_serialize true heap (some two) ≡ ok (pos 0, some buf, len, h1))
    × (dict_unserialize false far_heap (some buf) (pos len) (some bare) ≡ ok (pos 0, h', some d'))
    × IsValid d'
    × ((q : List ℕ) → contents h' d'.members_list q ≡ sent heap pairs q)
dict_unserialize-dict_allocate_and_serialize_example =
    dict_unserialize-dict_allocate_and_serialize true false heap two entries far_heap bare
      two-IsValid two-Carries is_text (omega arith) (omega arith) refl bare-Filling (omega arith)

-- A key length of -1 is taken: the value begins where the key does.
negative_key :
    (dict_unserialize true far_heap
        (some (0 ∷ 0 ∷ 0 ∷ 1 ∷ 255 ∷ 255 ∷ 255 ∷ 255 ∷ 0 ∷ 0 ∷ 0 ∷ 0 ∷ 0 ∷ []))
        (pos 13)
        (some bare)
      >>= λ r. ok r.0)
    ≡ ok (pos 0)
unfolding dict_unserialize super_fast_hash ◌+ℤ◌
negative_key = refl

-- A key length of -100 lets the next round read in front of the buffer.
very_negative_key :
    dict_unserialize true far_heap
      (some (0 ∷ 0 ∷ 0 ∷ 2 ∷ 255 ∷ 255 ∷ 255 ∷ 156 ∷ 0 ∷ 0 ∷ 0 ∷ 0 ∷ 0 ∷ []))
      (pos 13)
      (some bare)
    ≡ fault bad_access
unfolding dict_unserialize super_fast_hash ◌+ℤ◌
very_negative_key = refl
