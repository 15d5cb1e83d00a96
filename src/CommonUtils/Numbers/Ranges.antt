-- ===== src/CommonUtils/Numbers/Ranges.antt =====
-- The ranges of the integer types that src/common-utils.c reads from strings.
use lz_lib.Base.{ℕ, ◌^◌, ◌<◌, ◌≡◌, inl, inr, false, some, List, arith}
use lz_lib.CommonUtils.{Libc, Answer}
use lz_lib.CommonUtils.Numbers.{
  string2ulonglong, string2longlong, finish, minus_first, string2signed, string2unsigned,
  narrow_signed, narrow_unsigned,
}
use lz_lib.CommonUtils.Numbers.Narrow.{
  lz_string2int8, lz_string2int16, lz_string2int32, lz_string2int64, lz_string2uint8,
  lz_string2uint16, lz_string2uint32, lz_string2uint64, lz_string2uint8_base10,
  lz_string2uint16_base10, lz_string2uint32_base10, lz_string2uint64_base10,
}
use lz_lib.CommonUtils.Numbers.Laws.{
  Whole, Within, Exact, finish-Exact, narrow_signed-Exact, narrow_unsigned-Exact,
  string2unsigned-Exact,
}

-- A condition that always holds can be left out.
Exact-always :
    {A : Type 0} (r : Answer A) (v : A) (P Q : Type 0) → Q → Exact r v (P × Q) → Exact r v P
Exact-always r v P Q q x = elim x [
  | inl (g, a, b) ↦ inl (g.0, a, b)
  | inr (n, a, b) ↦ inr (λ p. n (p, q), a, b)
]

module _ (libc : Libc) (s : List ℕ) (old : ℕ) where
  -- `lz_string2int8`, `lz_string2int16`, `lz_string2int32` and `lz_string2int64` on a string, where `strtoll` gives
  -- numbers of 64 bits: the call returns 0 exactly if the C library converts the whole string without an error and the
  -- number is in the range of the type, and it then stores this number. Otherwise it returns -1 and stores nothing.
  pub lz_string2int8-Exact :
      Within (2 ^ 63) (libc.strtoll s 0).value
      → Exact
          (lz_string2int8 libc (some s) old)
          (libc.strtol s 0).value
          (Whole (libc.strtol s 0) × Within (2 ^ 7) (libc.strtol s 0).value)
        × Exact
            (lz_string2int16 libc (some s) old)
            (libc.strtol s 0).value
            (Whole (libc.strtol s 0) × Within (2 ^ 15) (libc.strtol s 0).value)
        × Exact
            (lz_string2int32 libc (some s) old)
            (libc.strtol s 0).value
            (Whole (libc.strtol s 0) × Within (2 ^ 31) (libc.strtol s 0).value)
        × Exact
            (lz_string2int64 libc (some s) old)
            (libc.strtoll s 0).value
            (Whole (libc.strtoll s 0))
  unfolding lz_string2int8 lz_string2int16 lz_string2int32 lz_string2int64 string2signed
      string2longlong
  lz_string2int8-Exact wide =
      let c = libc.strtol s 0 in
      let cc = libc.strtoll s 0 in
      let x = finish-Exact c old in
      (
        narrow_signed-Exact (2 ^ 7) (finish c old) c.value (Whole c) (omega arith) x,
        narrow_signed-Exact (2 ^ 15) (finish c old) c.value (Whole c) (omega arith) x,
        narrow_signed-Exact (2 ^ 31) (finish c old) c.value (Whole c) (omega arith) x,
        Exact-always (narrow_signed (2 ^ 63) (finish cc old)) cc.value (Whole cc)
            (Within (2 ^ 63) cc.value) wide
            (narrow_signed-Exact (2 ^ 63) (finish cc old) cc.value (Whole cc) (omega arith)
              (finish-Exact cc old)),
      )

  -- What the unsigned conversion of base `base` to a type below `m` accepts.
  abbrev pub Natural : ℕ → ℕ → Type 0
  Natural base m =
      ((minus_first libc s ≡ false) × Whole (libc.strtoul s base))
      × ((libc.strtoul s base).value < m)

  abbrev pub Natural64 : ℕ → Type 0
  Natural64 base = (minus_first libc s ≡ false) × Whole (libc.strtoull s base)

  -- `lz_string2uint8`, `lz_string2uint16`, `lz_string2uint32` and `lz_string2uint64`, each with base 0 and with base 10,
  -- on a string, where `strtoull` gives numbers of 64 bits: the call returns 0 exactly if the first character behind the
  -- white space is not a minus, the C library converts the whole string without an error and the number is in the
  -- range of the type, and it then stores this number. Otherwise it returns -1 and stores nothing.
  pub lz_string2uint8-Exact :
      (libc.strtoull s 0).value < 2 ^ 64
      → (libc.strtoull s 10).value < 2 ^ 64
      → (Exact (lz_string2uint8 libc (some s) old) (libc.strtoul s 0).value (Natural 0 (2 ^ 8))
          × Exact (lz_string2uint16 libc (some s) old) (libc.strtoul s 0).value (Natural 0 (2 ^ 16))
          × Exact (lz_string2uint32 libc (some s) old) (libc.strtoul s 0).value (Natural 0 (2 ^ 32))
          × Exact (lz_string2uint64 libc (some s) old) (libc.strtoull s 0).value (Natural64 0))
        × (Exact
              (lz_string2uint8_base10 libc (some s) old)
              (libc.strtoul s 10).value
              (Natural 10 (2 ^ 8))
            × Exact
                (lz_string2uint16_base10 libc (some s) old)
                (libc.strtoul s 10).value
                (Natural 10 (2 ^ 16))
            × Exact
                (lz_string2uint32_base10 libc (some s) old)
                (libc.strtoul s 10).value
                (Natural 10 (2 ^ 32))
            × Exact
                (lz_string2uint64_base10 libc (some s) old)
                (libc.strtoull s 10).value
                (Natural64 10))
  unfolding lz_string2uint8 lz_string2uint16 lz_string2uint32 lz_string2uint64
      lz_string2uint8_base10 lz_string2uint16_base10 lz_string2uint32_base10 lz_string2uint64_base10
      string2ulonglong
  lz_string2uint8-Exact wide wide10 = (
    (below 0 (2 ^ 8), below 0 (2 ^ 16), below 0 (2 ^ 32), below64 0 wide),
    (below 10 (2 ^ 8), below 10 (2 ^ 16), below 10 (2 ^ 32), below64 10 wide10),
  )
    where
      below :
          (base m : ℕ)
          → Exact
              (narrow_unsigned m (string2unsigned libc libc.strtoul (some s) false base old))
              (libc.strtoul s base).value
              (Natural base m)
      below base m =
          narrow_unsigned-Exact m (string2unsigned libc libc.strtoul (some s) false base old)
            (libc.strtoul s base).value ((minus_first libc s ≡ false) × Whole (libc.strtoul s base))
            (string2unsigned-Exact libc libc.strtoul s base old)

      below64 :
          (base : ℕ)
          → (libc.strtoull s base).value < 2 ^ 64
          → Exact
              (narrow_unsigned
                (2 ^ 64)
                (string2unsigned libc libc.strtoull (some s) false base old))
              (libc.strtoull s base).value
              (Natural64 base)
      below64 base wide =
          Exact-always
            (narrow_unsigned (2 ^ 64) (string2unsigned libc libc.strtoull (some s) false base old))
            (libc.strtoull s base).value (Natural64 base) ((libc.strtoull s base).value < 2 ^ 64)
            wide
            (narrow_unsigned-Exact (2 ^ 64)
              (string2unsigned libc libc.strtoull (some s) false base old)
              (libc.strtoull s base).value (Natural64 base)
              (string2unsigned-Exact libc libc.strtoull s base old))
