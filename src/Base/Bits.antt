-- ===== src/Base/Bits.antt =====
-- `|` of fields that do not overlap is their sum.
use Prim.Native.Nat.{
  ℕ, zero, suc, ◌+◌, ◌*◌, ◌/◌, ◌%◌, ◌^◌, ◌≤◌, ◌<◌, max, bit_or, digits, bit_or-bitwise,
}
use mathlib.Core.Path.{◌≡◌, refl, ap}
use native.Mathlib.Omega.{arith}
use native.Mathlib.Nat.{pow-suc}

abbrev or_digits : ℕ → ℕ → ℕ → ℕ
or_digits rounds x y = digits (λ rest. rest) max rounds x y

or_digits_enough :
    (x y first second : ℕ) → x ≤ first → x ≤ second → or_digits first x y ≡ or_digits second x y
or_digits_enough zero y zero zero h k = refl
or_digits_enough zero y zero (suc m) h k = refl
or_digits_enough zero y (suc n) zero h k = refl
or_digits_enough zero y (suc n) (suc m) h k = refl
or_digits_enough (suc x) y zero m h k = absurd (omega arith)
or_digits_enough (suc x) y (suc n) zero h k = absurd (omega arith)
or_digits_enough (suc x) y (suc n) (suc m) h k =
    rw (or_digits_enough (suc x / 2) (y / 2) n m (omega arith) (omega arith))

-- The lowest digit apart.
lowest : (x y : ℕ) → bit_or x y ≡ bit_or (x / 2) (y / 2) * 2 + max (x % 2) (y % 2)
lowest zero y = omega (arith, bit_or-bitwise 0 y, bit_or-bitwise 0 (y / 2))
lowest (suc x) y = omega (
  arith,
  bit_or-bitwise (suc x) y,
  bit_or-bitwise (suc x / 2) (y / 2),
  or_digits_enough (suc x / 2) (y / 2) x (suc x / 2) (omega arith) (omega arith),
)

bit_or-zero : (fuel x : ℕ) → x ≤ fuel → bit_or x 0 ≡ x
bit_or-zero fuel zero h = refl
bit_or-zero zero (suc x) h = absurd (omega arith)
bit_or-zero (suc fuel) (suc x) h =
    omega (arith, lowest (suc x) 0, bit_or-zero fuel (suc x / 2) (omega arith))

doubled : (high k : ℕ) → high * 2 ^ suc k ≡ high * 2 ^ k * 2
doubled high k = omega (arith, ap (λ (t : ℕ). high * t) (pow-suc 2 k))

pub bit_or-sum : (k high low : ℕ) → low < 2 ^ k → bit_or (high * 2 ^ k) low ≡ high * 2 ^ k + low
bit_or-sum zero high low h = ground (arith, bit_or-zero (high * 1) (high * 1))
bit_or-sum (suc k) high low h = ground (
  arith,
  lowest (high * 2 ^ suc k) low,
  doubled high k,
  bit_or-sum k high (low / 2) (omega arith),
)
