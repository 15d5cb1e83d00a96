-- ===== src/CommonUtils/Numbers/Wide.antt =====
-- The conversions of src/common-utils.c that store the C library's value as it is, or cut down.
use lz_lib.Base.{
  eq_bytes, ◌-◌, ℕ, ◌*◌, ◌%◌, ◌^◌, Bool, true, false, ◌||◌, Option, none, some, List, [], ◌∷◌, ◌==◌,
  if◌then◌else◌,
}
use lz_lib.Base.Int.{ℤ, pos, negsuc, eqb_ℤ}
use lz_lib.CommonUtils.{Libc, Answer, einval, erange}
use lz_lib.CommonUtils.Numbers.{
  string2ulonglong, string2longlong, failed, minus_first, string2signed, string2unsigned,
}

unfoldable pub lz_string2long : Libc → Option (List ℕ) → Bool → ℕ → Answer ℤ
unfolding string2signed
lz_string2long libc str n_null old = string2signed libc.strtol str n_null 0 old

unfoldable pub lz_string2longlong : Libc → Option (List ℕ) → Bool → ℕ → Answer ℤ
unfolding string2longlong
lz_string2longlong libc str n_null old = string2longlong libc str n_null 0 old

unfoldable pub lz_string2ulong : Libc → Option (List ℕ) → Bool → ℕ → Answer ℕ
unfolding string2unsigned
lz_string2ulong libc str n_null old = string2unsigned libc libc.strtoul str n_null 0 old

unfoldable pub lz_string2ulong_base10 : Libc → Option (List ℕ) → Bool → ℕ → Answer ℕ
unfolding string2unsigned
lz_string2ulong_base10 libc str n_null old = string2unsigned libc libc.strtoul str n_null 10 old

unfoldable pub lz_string2ulonglong : Libc → Option (List ℕ) → Bool → ℕ → Answer ℕ
unfolding string2ulonglong
lz_string2ulonglong libc str n_null old = string2ulonglong libc str n_null 0 old

-- `_lz_string2uint`: the value is cut down to an `unsigned int`.
unfoldable pub string2uint : Libc → Option (List ℕ) → Bool → ℕ → ℕ → Answer ℕ
unfolding string2unsigned
string2uint libc str n_null base old =
    let r = string2unsigned libc libc.strtoul str n_null base old in
    record {
      ret = r.ret;
      stored = elim r.stored [ none ↦ none | some value ↦ some (value % 2 ^ 32) ];
      errno = r.errno;
    }

unfoldable pub lz_string2uint : Libc → Option (List ℕ) → Bool → ℕ → Answer ℕ
unfolding string2uint
lz_string2uint libc str n_null old = string2uint libc str n_null 0 old

unfoldable pub lz_string2uint_base10 : Libc → Option (List ℕ) → Bool → ℕ → Answer ℕ
unfolding string2uint
lz_string2uint_base10 libc str n_null old = string2uint libc str n_null 10 old

-- A `long` converted to `unsigned long`, and this to `uint32_t`.
unfoldable pub low32 : ℤ → ℕ
low32 (pos n) = n % 2 ^ 32
low32 (negsuc n) = 2 ^ 32 - 1 - n % 2 ^ 32

-- The common body of `lz_string2time` and `lz_string2percent`, by the test of the tail.
unfoldable pub string2unit : Libc → (List ℕ → Bool) → Option (List ℕ) → Bool → ℕ → Answer ℕ
unfolding failed minus_first low32
string2unit libc suffix none n_null old = failed einval
string2unit libc suffix (some s) true old = failed einval
string2unit libc suffix (some s) false old =
    let c = libc.strtol s 0 in
    let e = if c.errno == 0 then old else c.errno in
    if minus_first libc s
    then failed old
    else (if (c.errno == erange) || (c.errno == einval)
        then failed c.errno
        else (if suffix c.tail
            then record { ret = pos 0; stored = some (low32 c.value); errno = e }
            else failed e))

unfoldable pub lz_string2time : Libc → Option (List ℕ) → Bool → ℕ → Answer ℕ
unfolding string2unit
lz_string2time libc str n_null old =
    string2unit libc
      (λ t. eq_bytes t [] || (eq_bytes t (b's' ∷ []) || eq_bytes t (b's' ∷ (b'e' ∷ (b'c' ∷ [])))))
      str n_null old

unfoldable pub lz_string2percent : Libc → Option (List ℕ) → Bool → ℕ → Answer ℕ
unfolding string2unit
lz_string2percent libc str n_null old =
    string2unit libc (λ t. eq_bytes t [] || eq_bytes t (b'%' ∷ [])) str n_null old

-- The unit that a tail names.
unfoldable pub unit_of : Libc → List ℕ → Option ℕ
unit_of libc [] = some 1
unit_of libc tail =
    if eqb_ℤ (libc.strcasecmp tail (b'K' ∷ (b'B' ∷ []))) (pos 0)
    then some 1024
    else (if eqb_ℤ (libc.strcasecmp tail (b'M' ∷ (b'B' ∷ []))) (pos 0)
        then some 1048576
        else (if eqb_ℤ (libc.strcasecmp tail (b'G' ∷ (b'B' ∷ []))) (pos 0)
            then some 1073741824
            else (if eqb_ℤ (libc.strcasecmp tail (b'T' ∷ (b'B' ∷ []))) (pos 0)
                then some 1099511627776
                else (if eqb_ℤ (libc.strcasecmp tail (b'P' ∷ (b'B' ∷ []))) (pos 0)
                    then some 1125899906842624
                    else none))))

unfoldable pub lz_string2bytesize : Libc → Option (List ℕ) → Bool → ℕ → Answer ℕ
unfolding failed minus_first unit_of
lz_string2bytesize libc none n_null old = failed einval
lz_string2bytesize libc (some s) true old = failed einval
lz_string2bytesize libc (some s) false old =
    let c = libc.strtoull s 10 in
    let e = if c.errno == 0 then old else c.errno in
    if minus_first libc s
    then failed old
    else (if (c.errno == erange) || (c.errno == einval)
        then failed c.errno
        else elim (unit_of libc c.tail) [
          | some unit ↦ record { ret = pos 0; stored = some (c.value * unit % 2 ^ 64); errno = e }
          | none ↦ failed e
        ])
