-- ===== src/Socket/Queue/Message.antt =====
-- The header of a message, as it is written and as it is read.
use lz_lib.Base.{
  ℕ, suc, ◌^◌, ◌<◌, ◌≤◌, ◌≡◌, refl, sym, ap, ◌∙◌, Bool, true, false, some, List, [], ◌∷◌, ◌++◌,
  get_or, length, eq_bytes, ok, arith,
}
use lz_lib.Base.Int.{pos}
use lz_lib.Dict.Wire.{net_bytes, read_word}
use lz_lib.Dict.Wire.Entries.{length-net_bytes}
use lz_lib.Dict.Wire.Read.{read_word-net_bytes}
use lz_lib.Dict.Wire.Between.{net_bytes_same}
use lz_lib.Socket.Proto.{validate_header}
use lz_lib.Socket.Queue.{message_header}

pub length-message_header : (little : Bool) (l p : ℕ) → length (message_header little l p) ≡ 12
unfolding message_header net_bytes
length-message_header true l p = refl
length-message_header false l p = refl

version-message_header : (little : Bool) (l p : ℕ) → get_or (message_header little l p) 11 0 ≡ 42
unfolding message_header net_bytes
version-message_header true l p = refl
version-message_header false l p = refl

header_same :
    (one other : Bool) (l p : ℕ)
    → l < 2 ^ 32
    → p < 2 ^ 32
    → message_header one l p ≡ message_header other l p
unfolding message_header
header_same one other l p a b =
    ap (λ t. b':' ∷ (b'O' ∷ (0 ∷ (t ++ (net_bytes one p ++ (42 ∷ []))))))
      (net_bytes_same one other l a)
    ∙ ap (λ t. b':' ∷ (b'O' ∷ (0 ∷ (net_bytes other l ++ (t ++ (42 ∷ []))))))
        (net_bytes_same one other p b)

validate_header-own :
    (little : Bool) (l p : ℕ)
    → 0 < l
    → l ≤ 1048576
    → p ≤ 131072
    → validate_header little (message_header little l p) ≡ ok (some (l, p))
unfolding validate_header message_header eq_bytes
validate_header-own little l p some_bytes a b =
    let start : List ℕ = b':' ∷ (b'O' ∷ (0 ∷ [])) in
    let header = message_header little l p in
    let first : read_word little header (pos 3) ≡ ok l =
      read_word-net_bytes little header start (net_bytes little p ++ (42 ∷ [])) 3 l refl refl
        (omega arith) in
    let second : read_word little header (pos 7) ≡ ok p =
      read_word-net_bytes little header (start ++ net_bytes little l) (42 ∷ []) 7 p refl
        (ap (λ n. suc (suc (suc n))) (sym (length-net_bytes little l))) (omega arith) in
    let version = version-message_header little l p in rw (first, second) (ground (arith, version))

-- A header that was written on either target is taken on either, and gives its sizes.
pub validate_header-message_header :
    (one other : Bool) (l p : ℕ)
    → 0 < l
    → l ≤ 1048576
    → p ≤ 131072
    → validate_header other (message_header one l p) ≡ ok (some (l, p))
validate_header-message_header one other l p some_bytes a b =
    ap (validate_header other) (header_same one other l p (omega arith) (omega arith))
    ∙ validate_header-own other l p some_bytes a b
