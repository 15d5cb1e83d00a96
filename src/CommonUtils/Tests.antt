-- ===== src/CommonUtils/Tests.antt =====
-- Strings and numbers of src/common-utils.c, with a small C library that reads decimal digits.
use lz_lib.Base.{
  ap, ℕ, ◌+◌, ◌-◌, ◌*◌, ◌^◌, ◌<◌, ◌≤◌, ◌≡◌, ◌⊎◌, inl, inr, refl, Bool, false, ◌&&◌, Option, none,
  some, List, [], ◌∷◌, ◌++◌, All, length, ltb, leb, ◌==◌, if◌then◌else◌, arith, ok, eq_bytes,
  Bool-cases,
}
use lz_lib.Base.Int.{pos}
use lz_lib.CommonUtils.{Libc}
use lz_lib.CommonUtils.Numbers.{
  failed, finish, minus_first, string2signed, string2unsigned, narrow_signed, narrow_unsigned, wrap,
  or_zero, or_zero_ℤ,
}
use lz_lib.CommonUtils.Numbers.Wide.{
  lz_string2uint, string2uint, lz_string2bytesize, unit_of, lz_string2time, string2unit, low32,
}
use lz_lib.CommonUtils.Numbers.Narrow.{
  lz_string2int8, lz_string2int16, lz_string2int32, lz_string2int64, lz_string2uint8,
  lz_string2uint16, lz_string2uint32, lz_string2uint64, lz_string2uint8_base10,
  lz_string2uint16_base10, lz_string2uint32_base10, lz_string2uint64_base10,
}
use lz_lib.CommonUtils.Numbers.Laws.{Whole, Within, Exact}
use lz_lib.CommonUtils.Numbers.Ranges.{
  lz_string2int8-Exact, lz_string2uint8-Exact, Natural, Natural64,
}
use lz_lib.CommonUtils.Trim.{lz_trim, skip_spaces, last_place, trim_end, lz_trim-Bare, Space, Bare}
use lz_lib.CommonUtils.Split.{
  Memory, lz_strsplit, count_loop, fill_loop, put_token, finish_split, one_token, alloc, free,
}
use lz_lib.CommonUtils.Split.Words.{words}
use lz_lib.CommonUtils.Split.Laws.{lz_strsplit-words, Separates, Separated}

abbrev digits : ℕ → List ℕ → ℕ × List ℕ
digits n [] = (n, [])
digits n (c ∷ s) =
    let rest = digits (n * 10 + (c - 48)) s in if leb 48 c && ltb c 58 then rest else (n, c ∷ s)

abbrev space : ℕ → Bool
space c = c == 32

abbrev small_libc : Libc
small_libc = record {
  isspace = space;
  strcasecmp = λ a b. if eq_bytes a b then pos 0 else pos 1;
  strtol = λ s base. record { value = pos ((digits 0 s).0); tail = (digits 0 s).1; errno = 0 };
  strtoll = λ s base. record { value = pos ((digits 0 s).0); tail = (digits 0 s).1; errno = 0 };
  strtoul = λ s base. record { value = (digits 0 s).0; tail = (digits 0 s).1; errno = 0 };
  strtoull = λ s base. record { value = (digits 0 s).0; tail = (digits 0 s).1; errno = 0 };
}

-- "200"
abbrev two_hundred : List ℕ
two_hundred = b'2' ∷ (b'0' ∷ (b'0' ∷ []))

-- "4294967301", 2 ^ 32 + 5
abbrev large : List ℕ
large = b'4' ∷ (b'2' ∷ (b'9' ∷ (b'4' ∷ (b'9' ∷ (b'6' ∷ (b'7' ∷ (b'3' ∷ (b'0' ∷ (b'1' ∷ [])))))))))

too_large : (lz_string2int8 small_libc (some two_hundred) 0).stored ≡ none
unfolding lz_string2int8 string2signed finish failed narrow_signed or_zero_ℤ wrap
too_large = refl

fits : (lz_string2uint8 small_libc (some two_hundred) 0).stored ≡ some 200
unfolding lz_string2uint8 string2unsigned finish failed narrow_unsigned or_zero minus_first
fits = refl

-- An `unsigned int` takes a larger number, and keeps its low bits.
cut_down : (lz_string2uint small_libc (some large) false 0).stored ≡ some 5
unfolding lz_string2uint string2uint string2unsigned finish failed minus_first
cut_down = refl

-- "20000PB" is 20000 * 2 ^ 50, above 2 ^ 64.
overflowing :
    (lz_string2bytesize small_libc
      (some (b'2' ∷ (b'0' ∷ (b'0' ∷ (b'0' ∷ (b'0' ∷ (b'P' ∷ (b'B' ∷ []))))))))
      false
      0).stored
    ≡ some (20000 * 1125899906842624 - 2 ^ 64)
unfolding lz_string2bytesize failed minus_first unit_of eq_bytes
overflowing = refl

seconds :
    (lz_string2time small_libc (some (b'7' ∷ (b's' ∷ (b'e' ∷ (b'c' ∷ []))))) false 0).stored
    ≡ some 7
unfolding lz_string2time string2unit failed minus_first low32 eq_bytes
seconds = refl

lz_string2int8-Exact_example :
    Exact
      (lz_string2int8 small_libc (some two_hundred) 0)
      (pos 200)
      (Whole (small_libc.strtol two_hundred 0) × Within (2 ^ 7) (pos 200))
    × Exact
        (lz_string2int16 small_libc (some two_hundred) 0)
        (pos 200)
        (Whole (small_libc.strtol two_hundred 0) × Within (2 ^ 15) (pos 200))
    × Exact
        (lz_string2int32 small_libc (some two_hundred) 0)
        (pos 200)
        (Whole (small_libc.strtol two_hundred 0) × Within (2 ^ 31) (pos 200))
    × Exact
        (lz_string2int64 small_libc (some two_hundred) 0)
        (pos 200)
        (Whole (small_libc.strtoll two_hundred 0))
lz_string2int8-Exact_example = lz_string2int8-Exact small_libc two_hundred 0 (omega arith)

lz_string2uint8-Exact_example :
    (Exact
        (lz_string2uint8 small_libc (some two_hundred) 0)
        200
        (Natural small_libc two_hundred 0 0 (2 ^ 8))
      × Exact
          (lz_string2uint16 small_libc (some two_hundred) 0)
          200
          (Natural small_libc two_hundred 0 0 (2 ^ 16))
      × Exact
          (lz_string2uint32 small_libc (some two_hundred) 0)
          200
          (Natural small_libc two_hundred 0 0 (2 ^ 32))
      × Exact
          (lz_string2uint64 small_libc (some two_hundred) 0)
          200
          (Natural64 small_libc two_hundred 0 0))
    × (Exact
          (lz_string2uint8_base10 small_libc (some two_hundred) 0)
          200
          (Natural small_libc two_hundred 0 10 (2 ^ 8))
        × Exact
            (lz_string2uint16_base10 small_libc (some two_hundred) 0)
            200
            (Natural small_libc two_hundred 0 10 (2 ^ 16))
        × Exact
            (lz_string2uint32_base10 small_libc (some two_hundred) 0)
            200
            (Natural small_libc two_hundred 0 10 (2 ^ 32))
        × Exact
            (lz_string2uint64_base10 small_libc (some two_hundred) 0)
            200
            (Natural64 small_libc two_hundred 0 10))
lz_string2uint8-Exact_example =
    lz_string2uint8-Exact small_libc two_hundred 0 (omega arith) (omega arith)

-- "  a b "
abbrev padded : List ℕ
padded = b' ' ∷ (b' ' ∷ (b'a' ∷ (b' ' ∷ (b'b' ∷ (b' ' ∷ [])))))

trimmed : lz_trim space (some padded) ≡ ok (some (b'a' ∷ (b' ' ∷ (b'b' ∷ []))))
unfolding lz_trim skip_spaces last_place trim_end
trimmed = refl

lz_trim-Bare_example :
    (left mid right : List ℕ) × (lz_trim space (some padded) ≡ ok (some mid))
    × (padded ≡ left ++ (mid ++ right))
    × All (Space space) left
    × All (Space space) right
    × Bare space mid
lz_trim-Bare_example = lz_trim-Bare space padded

abbrev comma : ℕ → Bool
comma c = c == b','

-- A `strsep` for the comma.
abbrev comma_sep : List ℕ → List ℕ → List ℕ × Option (List ℕ)
comma_sep [] delim = ([], none)
comma_sep (c ∷ s) delim =
    let rest = comma_sep s delim in if comma c then ([], some s) else (c ∷ rest.0, rest.1)

extend :
    (c : ℕ) (s t : List ℕ) (rest : Option (List ℕ))
    → comma c ≡ false
    → Separated comma_sep (b',' ∷ []) comma s t rest
    → Separated comma_sep (b',' ∷ []) comma (c ∷ s) (c ∷ t) rest
extend c s t none e (same, all) = (ap (λ u. c ∷ u) same, (e, all))
extend c s t (some rest) e (d, same, del, all) = (d, ap (λ u. c ∷ u) same, del, (e, all))

comma_sep-Separates : Separates comma_sep (b',' ∷ []) comma
comma_sep-Separates [] = (refl, tt)
comma_sep-Separates (c ∷ s) = elim (Bool-cases (comma c)) [
  | inl e ↦ rw e (c, refl, e, tt)
  | inr e ↦
      rw e (
        extend c s (comma_sep s (b',' ∷ [])).0 (comma_sep s (b',' ∷ [])).1 e
          (comma_sep-Separates s))
]

-- ",a,,bc"
abbrev listed : List ℕ
listed = b',' ∷ (b'a' ∷ (b',' ∷ (b',' ∷ (b'b' ∷ (b'c' ∷ [])))))

abbrev room9 : Memory
room9 = record { room = 9; live = 4 }

split :
    lz_strsplit comma_sep (b',' ∷ []) 8 (some listed) room9
    ≡ ok (some ((b'a' ∷ []) ∷ ((b'b' ∷ (b'c' ∷ [])) ∷ []), 2), record { room = 4; live = 7 })
unfolding lz_strsplit count_loop fill_loop put_token finish_split one_token alloc free
split = refl

lz_strsplit-words_example :
    (m' : Memory) × (((length (words comma listed) + 3 ≤ 9)
        × (lz_strsplit comma_sep (b',' ∷ []) 8 (some listed) room9
            ≡ ok (some (words comma listed, length (words comma listed)), m'))
        × (m'.live ≡ 4 + 1 + length (words comma listed)))
      ⊎ ((9 < length (words comma listed) + 3)
          × (lz_strsplit comma_sep (b',' ∷ []) 8 (some listed) room9 ≡ ok (none, m'))
          × (m'.live ≡ 4)))
lz_strsplit-words_example =
    lz_strsplit-words comma_sep (b',' ∷ []) comma 8 listed room9 comma_sep-Separates (omega arith)
