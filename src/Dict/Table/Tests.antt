-- ===== src/Dict/Table/Tests.antt =====
-- The dictionary on concrete keys, and the theorems at these.
use lz_lib.Base.{
  ◌≢◌, ◌%◌, ◌-◌, ◌⊎◌, ℕ, zero, suc, ◌^◌, ◌<◌, ◌≤◌, ◌≡◌, refl, false, none, some, List, [], ◌∷◌,
  arith, ◌==◌, if◌then◌else◌, get_elem?, replicate, ok, fault, bad_access, eq_bytes,
}
use lz_lib.Base.Int.{pos}
use lz_lib.Hash.{super_fast_hash}
use lz_lib.Dict.Store.{Data, Heap, blank_data}
use lz_lib.Dict.Table.{Dict, Node, dict_set, dict_get}
use lz_lib.Dict.Table.Nodes.{view, find_key}
use lz_lib.Dict.Table.Chains.{homed}
use lz_lib.Dict.Table.Refs.{refs, holders}
use lz_lib.Dict.Table.Valid.{IsValid, Owns, LinksHome-single}
use lz_lib.Dict.Table.Ops.{dict_get-view, dict_set-After, After, update_key}
use lz_lib.Dict.Table.Faults.{dict_set_negative}

abbrev name : List ℕ
name = b'n' ∷ b'a' ∷ b'm' ∷ b'e' ∷ []

abbrev key : List ℕ
key = b'k' ∷ b'e' ∷ b'y' ∷ []

-- Two live values, at 3 with the reference of the pair and one more, and at 4 with none.
abbrev object : ℕ → Data
object n = record blank_data { refcount = n; len = 2; bytes = some (b'1' ∷ 0 ∷ []) }

abbrev heap : Heap
heap = record {
  objects = λ p. if p == 3 then some (object 2) else (if p == 4 then some (object 0) else none);
  next = 9;
  room = 5;
}

abbrev one_pair : List Node
one_pair = record { id = 7; key = name; value = 3 } ∷ []

abbrev small : Dict
small = record {
  is_static = false;
  hash_size = 1;
  count = 1;
  refcount = 1;
  members = (7 ∷ []) ∷ [];
  members_list = one_pair;
}

small-chains : (i : ℕ) → i < 1 → get_elem? small.members i ≡ some (homed 1 i one_pair)
unfolding homed super_fast_hash
small-chains zero low = refl
small-chains (suc i) low = absurd (omega arith)

small-IsValid : IsValid small
small-IsValid = record {
  width = refl;
  sized = omega arith;
  chains = small-chains;
  distinct = (tt, tt);
  counted = omega arith;
}

held : (p : ℕ) → holders p one_pair ≤ refs heap p
unfolding holders
held p = ground arith

words : (p : ℕ) → refs heap p < 2 ^ 32
words p = ground arith

small-Owns : Owns heap one_pair
small-Owns = record { held = held; words = words; used = (omega arith, tt) }

dict_get-view_example : dict_get (some small) (some name) ≡ ok (view name one_pair)
dict_get-view_example = dict_get-view name small-IsValid

dict_get_found : view name one_pair ≡ some 3
unfolding view eq_bytes
dict_get_found = refl

dict_set-After_example :
    (h' : Heap) × (d' : Dict) × (dict_set (λ p. p ∷ []) heap (some small) (some key) (some 4)
      ≡ ok (pos 0, h', some d'))
    × After heap small (update_key key (some 4) one_pair) h' d'
dict_set-After_example =
    dict_set-After (λ p. p ∷ []) key 4 (object 0) small-IsValid small-Owns refl (omega arith)
      (LinksHome-single small key refl) (omega arith)

-- A table of ten buckets, and a key whose hash is 3544637679.
abbrev wide : Dict
wide = record {
  is_static = false;
  hash_size = 10;
  count = 0;
  refcount = 0;
  members = replicate 10 [];
  members_list = [];
}

key_hash : super_fast_hash key ≡ 3544637679
unfolding super_fast_hash
key_hash = refl

wide-IsValid : IsValid wide
unfolding homed
wide-IsValid = record {
  width = refl;
  sized = omega arith;
  chains = λ i low. grind arith;
  distinct = tt;
  counted = omega arith;
}

dict_set_negative_example :
    ((h' : Heap) × (d' : Dict) × (dict_set (λ p. p ∷ []) heap (some wide) (some key) (some 4)
        ≡ ok (pos 0, h', some d'))
      × ((super_fast_hash key < 2 ^ 31) ⊎ ((2 ^ 32 - super_fast_hash key) % 10 ≡ 0)))
    ⊎ ((dict_set (λ p. p ∷ []) heap (some wide) (some key) (some 4) ≡ fault bad_access)
        × (2 ^ 31 ≤ super_fast_hash key)
        × ((2 ^ 32 - super_fast_hash key) % 10 ≢ 0))
unfolding find_key
dict_set_negative_example =
    dict_set_negative (λ p. p ∷ []) heap key 4 (object 0) wide-IsValid refl refl (omega arith)
      (omega arith)
