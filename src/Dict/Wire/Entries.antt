-- ===== src/Dict/Wire/Entries.antt =====
-- The entries that a serialized dictionary carries, and their bytes.
use lz_lib.Base.{
  ℕ, zero, suc, ◌+◌, ◌≤◌, ◌≡◌, refl, ap, Bool, true, false, Option, none, some, List, [], ◌∷◌, ◌++◌,
  arith, length, take, drop,
}
use lz_lib.Dict.Store.{Data}
use lz_lib.Dict.Table.{Node}
use lz_lib.Dict.Wire.{net_bytes}

-- The key and the bytes of the value.
pub record Entry : Type 0 where
  pub key : List ℕ
  pub value : List ℕ

-- A pair carries an entry: its value has the bytes that its length says, and no iovec.
pub record Carried (o : ℕ → Option Data) (n : Node) (e : Entry) : Type 0 where
  pub object : Data
  pub live : o n.value ≡ some object
  pub plain : object.vec ≡ none
  pub bytes : List ℕ
  pub has : object.bytes ≡ some bytes
  pub long : object.len ≤ length bytes
  pub is_value : take object.len bytes ≡ e.value
  pub is_key : n.key ≡ e.key

abbrev pub Carries : (ℕ → Option Data) → List Node → List Entry → Type 0
Carries o [] [] = Unit
Carries o [] (e ∷ es) = ⊥
Carries o (n ∷ ns) [] = ⊥
Carries o (n ∷ ns) (e ∷ es) = Carried o n e × Carries o ns es

-- The number of bytes of entries, and these bytes: the lengths of key and value, the key with its NUL, and the
-- value.
abbrev pub entry_size : Entry → ℕ
entry_size e = 4 + 4 + length e.key + 1 + length e.value

abbrev pub size : List Entry → ℕ
size [] = 0
size (e ∷ es) = entry_size e + size es

unfoldable pub entry_bytes : Bool → Entry → List ℕ
unfolding net_bytes
entry_bytes little e =
    net_bytes little (length e.key)
    ++ net_bytes little (length e.value)
    ++ e.key
    ++ (0 ∷ [])
    ++ e.value

unfoldable pub entries_bytes : Bool → List Entry → List ℕ
unfolding entry_bytes
entries_bytes little [] = []
entries_bytes little (e ∷ es) = entry_bytes little e ++ entries_bytes little es

pub length-take : (n : ℕ) (xs : List ℕ) → n ≤ length xs → length (take n xs) ≡ n
length-take zero xs h = refl
length-take (suc n) [] h = absurd (omega arith)
length-take (suc n) (x ∷ xs) h = ap suc (length-take n xs (omega arith))

pub length-drop : (n : ℕ) (xs : List ℕ) → n ≤ length xs → length (drop n xs) + n ≡ length xs
length-drop zero xs h = omega arith
length-drop (suc n) [] h = absurd (omega arith)
length-drop (suc n) (x ∷ xs) h = omega (arith, length-drop n xs (omega arith))

pub length-net_bytes : (little : Bool) (n : ℕ) → length (net_bytes little n) ≡ 4
unfolding net_bytes
length-net_bytes true n = refl
length-net_bytes false n = refl

pub length-Carries :
    (o : ℕ → Option Data) (ns : List Node) (es : List Entry) → Carries o ns es → length ns ≤ size es
length-Carries o [] [] c = omega arith
length-Carries o [] (e ∷ es) c = absurd c
length-Carries o (n ∷ ns) [] c = absurd c
length-Carries o (n ∷ ns) (e ∷ es) c = omega (arith, length-Carries o ns es c.1)
