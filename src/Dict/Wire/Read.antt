-- ===== src/Dict/Wire/Read.antt =====
-- What a round of `dict_unserialize` reads from the bytes of an entry.
use mathlib.Core.List.{append_assoc}
use lz_lib.Base.Int.{pos, ◌+ℤ◌, pos-plus, signed32}
use lz_lib.Base.{
  ℕ, suc, ◌+◌, ◌*◌, ◌/◌, ◌%◌, ◌^◌, ◌≤◌, ◌<◌, ◌≡◌, ◌≢◌, refl, sym, ap, ◌∙◌, Bool, true, false, some,
  List, [], ◌∷◌, ◌++◌, arith, All, length, take, drop, length-append, ok, ◌>>=◌, leb, ltb, ◌==◌,
}
use lz_lib.ByteOrder.{swap32}
use lz_lib.ByteOrder.Laws.{swap32_twice, swap32-lt}
use lz_lib.Dict.Store.{Heap}
use lz_lib.Dict.Table.{Dict, dict_set_key}
use lz_lib.Dict.Wire.{
  net_bytes, bytes_at, first_word, read_word, until_nul, read_string, window, beyond, new_value,
  unserialize_pairs,
}
use lz_lib.Dict.Wire.Entries.{Entry, entry_size, entry_bytes, length-net_bytes}

drop-append : (pre rest : List ℕ) → drop (length pre) (pre ++ rest) ≡ rest
drop-append [] rest = refl
drop-append (x ∷ pre) rest = drop-append pre rest

take-append : (bytes rest : List ℕ) → take (length bytes) (bytes ++ rest) ≡ bytes
take-append [] rest = refl
take-append (x ∷ bytes) rest = ap (◌∷◌ x) (take-append bytes rest)

bytes_at-append :
    (buf pre rest : List ℕ) (p : ℕ)
    → buf ≡ pre ++ rest
    → p ≡ length pre
    → bytes_at buf (pos p) ≡ ok rest
unfolding bytes_at
bytes_at-append buf pre rest p e at =
    let long : length buf ≡ length pre + length rest = ap length e ∙ length-append pre rest in
    let inside : leb p (length buf) ≡ true = ground (arith, long, at) in
    rw (bytes_at, inside) (rw (at, e) (ap ok (drop-append pre rest)))

word-bytes :
    (x : ℕ)
    → x < 2 ^ 32
    → x % 2 ^ 8 + x / 2 ^ 8 % 2 ^ 8 * 2 ^ 8 + x / 2 ^ 16 % 2 ^ 8 * 2 ^ 16 + x / 2 ^ 24 * 2 ^ 24 ≡ x
word-bytes x h = omega arith

-- A word that was written is read.
first_word-net_bytes :
    (little : Bool) (n : ℕ) (rest : List ℕ)
    → n < 2 ^ 32
    → first_word little (net_bytes little n ++ rest) ≡ ok n
unfolding first_word net_bytes
first_word-net_bytes true n rest h =
    ap ok (ap swap32 (word-bytes (swap32 n) (swap32-lt n h)) ∙ swap32_twice n h)
first_word-net_bytes false n rest h = ap ok (word-bytes n h)

until_nul-key : (key rest : List ℕ) → All (λ b. b ≢ 0) key → until_nul (key ++ (0 ∷ rest)) ≡ ok key
unfolding until_nul
until_nul-key [] rest h = refl
until_nul-key (b ∷ key) rest h =
    let other : (b == 0) ≡ false = ground (arith, h.0) in
    rw (until_nul, other, until_nul-key key rest h.1) refl

pub beyond-inside : (s a b : ℕ) → a + b ≤ s → beyond (pos s) (pos a) (pos b) ≡ false
unfolding beyond
beyond-inside s a b h = rw (pos-plus a b) (ground arith)

signed32-small : (n : ℕ) → n < 2 ^ 31 → signed32 n ≡ pos n
signed32-small n h = ground arith

pub read_word-net_bytes :
    (little : Bool) (buf pre rest : List ℕ) (p n : ℕ)
    → buf ≡ pre ++ (net_bytes little n ++ rest)
    → p ≡ length pre
    → n < 2 ^ 32
    → read_word little buf (pos p) ≡ ok n
unfolding read_word
read_word-net_bytes little buf pre rest p n is at small =
    ap (λ m. m >>= first_word little) (bytes_at-append buf pre (net_bytes little n ++ rest) p is at)
    ∙ first_word-net_bytes little n rest small

read_string-key :
    (buf pre key rest : List ℕ) (p : ℕ)
    → buf ≡ pre ++ (key ++ (0 ∷ rest))
    → p ≡ length pre
    → All (λ b. b ≢ 0) key
    → read_string buf (pos p) ≡ ok key
unfolding read_string
read_string-key buf pre key rest p is at text =
    ap (λ m. m >>= until_nul) (bytes_at-append buf pre (key ++ (0 ∷ rest)) p is at)
    ∙ until_nul-key key rest text

window-append :
    (buf pre value rest : List ℕ) (p : ℕ)
    → buf ≡ pre ++ (value ++ rest)
    → p ≡ length pre
    → length value < 2 ^ 31
    → window buf (pos p) (length value) ≡ some value
unfolding window
window-append buf pre value rest p is at small =
    let fits : ltb (length value) (2 ^ 31) ≡ true = ground (arith, small) in
    rw (window, fits, is, at)
      (rw (drop-append pre (value ++ rest)) (ap some (take-append value rest)))

five_apart :
    (a b k v rest : List ℕ)
    → a ++ b ++ k ++ (0 ∷ []) ++ v ++ rest ≡ a ++ (b ++ (k ++ (0 ∷ (v ++ rest))))
five_apart a b k v rest = simp append_assoc

-- A round over the bytes of an entry, at any place of a buffer.
pub round-entry_bytes :
    (little : Bool) (h : Heap) (d : Dict) (e : Entry) (pre rest : List ℕ) (left total : ℕ)
    (buf : List ℕ) (p : ℕ) (h2 : Heap) (v : ℕ)
    → buf ≡ pre ++ (entry_bytes little e ++ rest)
    → p ≡ length pre
    → p + entry_size e ≤ total
    → entry_size e < 2 ^ 31
    → All (λ b. b ≢ 0) e.key
    → new_value h (length e.value) (some e.value) ≡ ok (v, h2)
    → unserialize_pairs little buf (pos total) (suc left) (pos p) h d ≡ (
        dict_set_key h2 d e.key v >>= λ r.
        unserialize_pairs little buf (pos total) left (pos (p + entry_size e)) r.1 r.2)
unfolding unserialize_pairs entry_bytes
round-entry_bytes little h d e pre rest left total buf p h2 v is at room small text made =
    let a = net_bytes little (length e.key) in
    let b = net_bytes little (length e.value) in
    let la = length-net_bytes little (length e.key) in
    let lb = length-net_bytes little (length e.value) in
    let tail = e.key ++ (0 ∷ []) ++ e.value ++ rest in
    let spread : buf ≡ pre ++ (a ++ (b ++ (e.key ++ (0 ∷ (e.value ++ rest))))) =
      is ∙ ap (λ t. pre ++ t) (five_apart a b e.key e.value rest) in
    let klen = signed32-small (length e.key) (omega (arith, small)) in
    let vlen = signed32-small (length e.value) (omega (arith, small)) in
    let key_at : pos p +ℤ pos 4 +ℤ pos 4 ≡ pos (p + 8) =
      rw (pos-plus p 4, pos-plus (p + 4) 4) (ap pos (omega arith)) in
    let value_at : pos p +ℤ pos 4 +ℤ pos 4 +ℤ (signed32 (length e.key) +ℤ pos 1)
        ≡ pos (p + 8 + length e.key + 1) =
      rw (key_at, klen, pos-plus (length e.key) 1, pos-plus (p + 8) (length e.key + 1))
        (ap pos (omega arith)) in
    let end : pos p
          +ℤ pos 4
          +ℤ pos 4
          +ℤ (signed32 (length e.key) +ℤ pos 1)
          +ℤ signed32 (length e.value)
        ≡ pos (p + entry_size e) =
      rw (value_at, vlen, pos-plus (p + 8 + length e.key + 1) (length e.value))
        (ap pos (omega arith)) in
    let first : read_word little buf (pos p) ≡ ok (length e.key) =
      read_word-net_bytes little buf pre (b ++ (e.key ++ (0 ∷ (e.value ++ rest)))) p (length e.key)
        spread at (omega (arith, small)) in
    let second : read_word little buf (pos p +ℤ pos 4) ≡ ok (length e.value) = rw (pos-plus p 4) (
      read_word-net_bytes little buf (pre ++ a) (e.key ++ (0 ∷ (e.value ++ rest))) (p + 4)
        (length e.value) (spread ∙ sym (append_assoc pre a _))
        (omega (arith, la, at, length-append pre a)) (omega (arith, small))) in
    let shifted : buf ≡ pre ++ a ++ b ++ (e.key ++ (0 ∷ (e.value ++ rest))) =
      spread ∙ simp append_assoc in
    let far : p + 8 ≡ length (pre ++ a ++ b) =
      omega (arith, la, lb, at, length-append pre a, length-append (pre ++ a) b) in
    let name : read_string buf (pos p +ℤ pos 4 +ℤ pos 4) ≡ ok e.key =
      rw (key_at)
        (read_string-key buf (pre ++ a ++ b) e.key (e.value ++ rest) (p + 8) shifted far text) in
    let last : buf ≡ pre ++ a ++ b ++ e.key ++ (0 ∷ []) ++ (e.value ++ rest) =
      shifted ∙ simp append_assoc in
    let value_far : p + 8 + length e.key + 1 ≡ length (pre ++ a ++ b ++ e.key ++ (0 ∷ [])) = omega (
      arith,
      far,
      length-append (pre ++ a ++ b) e.key,
      length-append (pre ++ a ++ b ++ e.key) (0 ∷ []),
    ) in
    let seen : window buf (pos p +ℤ pos 4 +ℤ pos 4 +ℤ (signed32 (length e.key) +ℤ pos 1))
          (length e.value)
        ≡ some e.value =
      rw value_at (
        window-append buf (pre ++ a ++ b ++ e.key ++ (0 ∷ [])) e.value rest
          (p + 8 + length e.key + 1) last value_far (omega (arith, small))) in
    let made' = ap (λ o. new_value h (length e.value) o) seen ∙ made in
    let in2 : beyond (pos total) (pos p +ℤ pos 4) (pos 4) ≡ false =
      rw (pos-plus p 4) (beyond-inside total (p + 4) 4 (omega (arith, room))) in
    let in3 : beyond (pos total) (pos p +ℤ pos 4 +ℤ pos 4) (signed32 (length e.key)) ≡ false =
      rw (key_at, klen) (beyond-inside total (p + 8) (length e.key) (omega (arith, room))) in
    let in4 : beyond (pos total) (pos p +ℤ pos 4 +ℤ pos 4 +ℤ (signed32 (length e.key) +ℤ pos 1))
          (signed32 (length e.value))
        ≡ false =
      rw (value_at, vlen)
        (beyond-inside total (p + 8 + length e.key + 1) (length e.value) (omega (arith, room))) in
    rw
      (
        unserialize_pairs,
        beyond-inside total p 4 (omega (arith, room)),
        first,
        ◌>>=◌,
        in2,
        second,
        in3,
        in4,
        made',
        name,
      )
      (ap
        (λ z. dict_set_key h2 d e.key v >>= λ r.
          unserialize_pairs little buf (pos total) left z r.1 r.2)
        end)
