-- ===== src/CommonUtils/Numbers.antt =====
-- Numbers from strings: `lz_string2long` and its relatives, of src/common-utils.c.
--
-- A `long` and a `long long` have 64 bits. The pointer `n` is NULL or not.
pub mod Wide
pub mod Narrow
pub mod Laws
pub mod Ranges
use lz_lib.Base.{
  ℕ, ◌+◌, ◌-◌, ◌*◌, ◌%◌, ◌^◌, Bool, true, false, not, ◌&&◌, ◌||◌, Option, none, some, List, [], ◌∷◌,
  ltb, ◌==◌, if◌then◌else◌,
}
use lz_lib.Base.Int.{ℤ, pos, negsuc, ltb_ℤ, eqb_ℤ}
use lz_lib.CommonUtils.{Converted, Libc, Answer, einval, erange}

module _ {A : Type 0} where
  -- `return -1`, with `errno` as it then is.
  unfoldable pub failed : ℕ → Answer A
  failed e = record { ret = negsuc 0; stored = none; errno = e }

  -- What follows the conversion: `errno` and the tail are looked at, and the value is stored.
  unfoldable pub finish : Converted A → ℕ → Answer A
  unfolding failed
  finish c old =
      if (c.errno == erange) || (c.errno == einval)
      then failed c.errno
      else let e = if c.errno == 0 then old else c.errno in
        elim c.tail [
          | [] ↦ record { ret = pos 0; stored = some c.value; errno = e }
          | t ∷ ts ↦ failed e
        ]

-- `for (s = str; *s != '\0'; s++)`: the first character that is not white space is a minus.
unfoldable pub minus_first : Libc → List ℕ → Bool
minus_first libc [] = false
minus_first libc (c ∷ s) =
    let rest = minus_first libc s in if libc.isspace c then rest else c == b'-'

-- `_lz_string2long`, by the conversion it calls
unfoldable pub string2signed :
    (List ℕ → ℕ → Converted ℤ) → Option (List ℕ) → Bool → ℕ → ℕ → Answer ℤ
unfolding failed finish
string2signed convert none n_null base old = failed einval
string2signed convert (some s) true base old = failed einval
string2signed convert (some s) false base old = finish (convert s base) old

-- `_lz_string2ulong`, by the conversion it calls
unfoldable pub string2unsigned :
    Libc → (List ℕ → ℕ → Converted ℕ) → Option (List ℕ) → Bool → ℕ → ℕ → Answer ℕ
unfolding failed finish minus_first
string2unsigned libc convert none n_null base old = failed einval
string2unsigned libc convert (some s) true base old = failed einval
string2unsigned libc convert (some s) false base old =
    if minus_first libc s then failed old else finish (convert s base) old

-- `_lz_string2longlong` and `_lz_string2ulonglong` are the same text with `strtoll` and `strtoull`.
unfoldable pub string2longlong : Libc → Option (List ℕ) → Bool → ℕ → ℕ → Answer ℤ
unfolding string2signed
string2longlong libc str n_null base old = string2signed libc.strtoll str n_null base old

unfoldable pub string2ulonglong : Libc → Option (List ℕ) → Bool → ℕ → ℕ → Answer ℕ
unfolding string2unsigned
string2ulonglong libc str n_null base old = string2unsigned libc libc.strtoull str n_null base old

-- An integer's pattern of bits, read as a signed integer of half as many patterns as `h` doubled.
unfoldable pub wrap : ℕ → ℤ → ℤ
wrap h (pos n) = let r = n % (h + h) in if ltb r h then pos r else negsuc (h + h - r - 1)
wrap h (negsuc n) = let r = n % (h + h) in if ltb r h then negsuc r else pos (h + h - r - 1)

-- What the narrow conversions have in `l`, declared as 0.
unfoldable pub or_zero : Option ℕ → ℕ
or_zero none = 0
or_zero (some l) = l

unfoldable pub or_zero_ℤ : Option ℤ → ℤ
or_zero_ℤ none = pos 0
or_zero_ℤ (some l) = l

-- The ends of `lz_string2int8` and its relatives, for the type from -h up to h - 1
unfoldable pub narrow_signed : ℕ → Answer ℤ → Answer ℤ
unfolding failed wrap or_zero_ℤ
narrow_signed h r =
    let l = or_zero_ℤ r.stored in
    if not (eqb_ℤ r.ret (pos 0))
    then record { ret = r.ret; stored = none; errno = r.errno }
    else (if not (ltb_ℤ l (negsuc (h - 1))) && not (ltb_ℤ (pos (h - 1)) l)
        then record { ret = pos 0; stored = some (wrap h l); errno = r.errno }
        else failed erange)

-- The ends of `lz_string2uint8` and its relatives, for the type below m
unfoldable pub narrow_unsigned : ℕ → Answer ℕ → Answer ℕ
unfolding failed or_zero
narrow_unsigned m r =
    let l = or_zero r.stored in
    if not (eqb_ℤ r.ret (pos 0))
    then record { ret = r.ret; stored = none; errno = r.errno }
    else (if ltb l m
        then record { ret = pos 0; stored = some (l % m); errno = r.errno }
        else failed erange)
