-- ===== src/Dict/Typed/Tests.antt =====
-- Numbers in values, with a C library that prints and reads decimal digits.
use lz_lib.Base.{
  inr, inl, ℕ, zero, suc, ◌+◌, ◌-◌, ◌*◌, ◌/◌, ◌%◌, ◌^◌, ◌<◌, ◌≤◌, ◌≡◌, ◌≢◌, refl, ap, ◌∙◌, none,
  List, [], ◌∷◌, ◌++◌, All, All-append, length, length-append, ltb, ◌==◌, if◌then◌else◌, arith,
  Bool-cases,
}
use native.Mathlib.Nat.{pow-suc}
use lz_lib.Base.Int.{ℤ, pos, negsuc}
use lz_lib.CommonUtils.{Libc}
use lz_lib.CommonUtils.Numbers.Laws.{Within}
use lz_lib.Dict.Store.{Heap}
use lz_lib.CommonUtils.Numbers.{wrap}
use lz_lib.Dict.Typed.{
  low_bits, int_to_data, data_from_int64, data_from_int32, data_from_int16, data_from_int8,
}
use lz_lib.Dict.Typed.Trip.{Decimal, MakesSigned, data_to_int64-data_from_int64}

-- The last `places` digits.
unfoldable dec : ℕ → ℕ → List ℕ
dec zero n = []
dec (suc places) n =
    let front = dec places (n / 10) in
    if ltb n 10 then (48 + n) ∷ [] else front ++ ((48 + n % 10) ∷ [])

unfoldable parse : ℕ → List ℕ → ℕ
parse a [] = a
parse a (c ∷ s) = parse (a * 10 + (c - 48)) s

parse-append : (a : ℕ) (s : List ℕ) (c : ℕ) → parse a (s ++ (c ∷ [])) ≡ parse a s * 10 + (c - 48)
unfolding parse
parse-append a [] c = refl
parse-append a (x ∷ s) c = parse-append (a * 10 + (x - 48)) s c

tenth : (p n : ℕ) → n < 10 * p → n / 10 < p
tenth p n h = omega arith

parse-dec : (places n : ℕ) → n < 10 ^ places → parse 0 (dec places n) ≡ n
unfolding dec parse
parse-dec zero n h = omega arith
parse-dec (suc places) n h = elim (Bool-cases (ltb n 10)) [
  | inl e ↦ rw e (omega arith)
  | inr e ↦
      let small : n / 10 < 10 ^ places = tenth (10 ^ places) n (omega (arith, pow-suc 10 places)) in
      let front = parse-dec places (n / 10) small in
      let end = parse-append 0 (dec places (n / 10)) (48 + n % 10) in
      rw e (end ∙ omega (arith, front))
]

dec-All : (places n : ℕ) → All (λ c. 48 ≤ c) (dec places n) × (length (dec places n) ≤ places)
unfolding dec
dec-All zero n = (tt, omega arith)
dec-All (suc places) n = elim (Bool-cases (ltb n 10)) [
  | inl e ↦ rw e ((omega arith, tt), omega arith)
  | inr e ↦
      let (all, len) = dec-All places (n / 10) in
      rw e (
        All-append (λ c. 48 ≤ c) (dec places (n / 10)) ((48 + n % 10) ∷ []) all (omega arith, tt),
        omega (arith, length-append (dec places (n / 10)) ((48 + n % 10) ∷ [])),
      )
]

abbrev print : ℤ → List ℕ
print (pos n) = dec 20 n
print (negsuc n) = b'-' ∷ dec 20 (n + 1)

unfoldable negative : ℕ → ℤ
negative n = if n == 0 then pos 0 else negsuc (n - 1)

unfoldable number : List ℕ → ℤ
number [] = pos 0
number (c ∷ s) = if c == b'-' then negative (parse 0 s) else pos (parse 0 (c ∷ s))

unfoldable up_to : ℕ → ℤ → ℤ
up_to m (pos n) = if ltb n m then pos n else pos (m - 1)
up_to m (negsuc n) = negsuc n

abbrev decimal_libc : Libc
decimal_libc = record {
  isspace = λ c. c == 32;
  strcasecmp = λ a b. pos 1;
  strtol = λ s base. record { value = up_to (2 ^ 63) (number s); tail = []; errno = 0 };
  strtoll = λ s base. record { value = up_to (2 ^ 63) (number s); tail = []; errno = 0 };
  strtoul = λ s base. record { value = low_bits (2 ^ 64) (number s); tail = []; errno = 0 };
  strtoull = λ s base. record { value = low_bits (2 ^ 64) (number s); tail = []; errno = 0 };
}

number-digits : (s : List ℕ) → All (λ c. 48 ≤ c) s → number s ≡ pos (parse 0 s)
unfolding number parse
number-digits [] h = refl
number-digits (c ∷ s) h = let first : 48 ≤ c = h.0 in ground arith

number-pos : (n : ℕ) → n < 2 ^ 64 → number (print (pos n)) ≡ pos n
number-pos n h = number-digits (dec 20 n) (dec-All 20 n).0 ∙ ap pos (parse-dec 20 n (omega arith))

number-print : (v : ℤ) → Within (2 ^ 63) v → number (print v) ≡ v
unfolding number negative
number-print (pos n) h = number-pos n (omega arith)
number-print (negsuc n) h = ground (arith, parse-dec 20 (n + 1) (omega arith))

up_to-Within : (v : ℤ) → Within (2 ^ 63) v → up_to (2 ^ 63) v ≡ v
unfolding up_to
up_to-Within (pos n) h = ground arith
up_to-Within (negsuc n) h = refl

visible : (s : List ℕ) → All (λ c. 48 ≤ c) s → All (λ c. c ≢ 0) s
visible [] h = tt
visible (c ∷ s) h = (λ e. omega (arith, e, h.0), visible s h.1)

visible-print : (v : ℤ) → All (λ c. c ≢ 0) (print v) × (length (print v) < 100)
visible-print (pos n) = (visible (dec 20 n) (dec-All 20 n).0, omega (arith, (dec-All 20 n).1))
visible-print (negsuc n) = (
  (λ e. omega (arith, e), visible (dec 20 (n + 1)) (dec-All 20 (n + 1)).0),
  omega (arith, (dec-All 20 (n + 1)).1),
)

decimal : Decimal print decimal_libc
unfolding up_to
decimal = record {
  digits = visible-print;
  long = λ v h. rw (number-print v h) (up_to-Within v h);
  long_long = λ v h. rw (number-print v h) (up_to-Within v h);
  long_long_end = λ n h k. rw (number-pos n k) (ground arith);
  long_end = λ n h k. rw (number-pos n k) (ground arith);
  unsigned_long = λ v h. rw (number-print v h) refl;
  unsigned_long_long = λ v h. rw (number-print v h) refl;
}

abbrev heap : Heap
heap = record { objects = λ q. none; next = 1; room = 3 }

-- 1000 is stored whole, and by `data_from_int8` as -24.
data_to_int64-data_from_int64_example :
    MakesSigned print decimal_libc heap (data_from_int64 print heap (pos 1000)) (pos 1000)
    × MakesSigned print decimal_libc heap (int_to_data print heap (pos 1000)) (pos 1000)
    × MakesSigned print decimal_libc heap (data_from_int32 print heap (pos 1000)) (pos 1000)
    × MakesSigned print decimal_libc heap (data_from_int16 print heap (pos 1000)) (pos 1000)
    × MakesSigned print decimal_libc heap (data_from_int8 print heap (pos 1000)) (negsuc 23)
unfolding wrap
data_to_int64-data_from_int64_example =
    data_to_int64-data_from_int64 print decimal_libc heap (pos 1000) decimal (omega arith)
      (omega arith)
