-- ===== src/ByteOrder/Laws.antt =====
-- On either target, at any time, a word in network order has its bytes in the order of their weight, and comes
-- back.
use lz_lib.Base.{
  ap, ℕ, ◌+◌, ◌*◌, ◌/◌, ◌%◌, ◌^◌, ◌<◌, ◌≡◌, refl, ◌∙◌, Bool, true, false, bit_or-sum, List, [], ◌∷◌,
  arith,
}
use mathlib.Core.Path.{ap₂}
use lz_lib.ByteOrder.{Pointers, initial, swapping, direct, swap16, swap32, swap64, hton32, hton64}

-- The pointers fit the target: they are not set yet, or set for it.
abbrev pub Fits : Bool → Pointers → Type 0
Fits little initial = Unit
Fits little swapping = little ≡ true
Fits little direct = little ≡ false

pub swap16-fields : (x : ℕ) → swap16 x ≡ x % 2 ^ 8 * 2 ^ 8 + x / 2 ^ 8 % 2 ^ 8
unfolding swap16
swap16-fields x = bit_or-sum 8 (x % 2 ^ 8) (x / 2 ^ 8 % 2 ^ 8) (omega arith)

pub swap32-fields : (x : ℕ) → swap32 x ≡ swap16 (x % 2 ^ 16) * 2 ^ 16 + swap16 (x / 2 ^ 16 % 2 ^ 16)
unfolding swap32
swap32-fields x =
    bit_or-sum 16 (swap16 (x % 2 ^ 16)) (swap16 (x / 2 ^ 16 % 2 ^ 16))
      (omega (arith, swap16-fields (x / 2 ^ 16 % 2 ^ 16)))

swap32-bytes :
    (x : ℕ)
    → x < 2 ^ 32
    → swap32 x
      ≡ x % 2 ^ 8 * 2 ^ 24 + x / 2 ^ 8 % 2 ^ 8 * 2 ^ 16 + x / 2 ^ 16 % 2 ^ 8 * 2 ^ 8 + x / 2 ^ 24
swap32-bytes x h =
    omega (arith, swap32-fields x, swap16-fields (x % 2 ^ 16), swap16-fields (x / 2 ^ 16 % 2 ^ 16))

pub swap32-lt : (x : ℕ) → x < 2 ^ 32 → swap32 x < 2 ^ 32
swap32-lt x h = omega (arith, swap32-bytes x h)

pub swap32_twice : (x : ℕ) → x < 2 ^ 32 → swap32 (swap32 x) ≡ x
swap32_twice x h = omega (arith, swap32-bytes x h, swap32-bytes (swap32 x) (swap32-lt x h))

swap64-fields : (x : ℕ) → x < 2 ^ 64 → swap64 x ≡ swap32 (x % 2 ^ 32) * 2 ^ 32 + swap32 (x / 2 ^ 32)
unfolding swap64
swap64-fields x h =
    let high : x / 2 ^ 32 % 2 ^ 32 ≡ x / 2 ^ 32 = omega arith in
    bit_or-sum 32 (swap32 (x % 2 ^ 32)) (swap32 (x / 2 ^ 32 % 2 ^ 32))
      (swap32-lt (x / 2 ^ 32 % 2 ^ 32) (omega arith))
    ∙ ap (λ y. swap32 (x % 2 ^ 32) * 2 ^ 32 + swap32 y) high

swap64_twice : (x : ℕ) → x < 2 ^ 64 → swap64 (swap64 x) ≡ x
swap64_twice x h =
    let low = x % 2 ^ 32 in
    let high = x / 2 ^ 32 in
    let y = swap64 x in
    let fields : y ≡ swap32 low * 2 ^ 32 + swap32 high = swap64-fields x h in
    let lt_low = swap32-lt low (omega arith) in
    let lt_high = swap32-lt high (omega arith) in
    let bottom : y % 2 ^ 32 ≡ swap32 high = omega (arith, fields, lt_high) in
    let top : y / 2 ^ 32 ≡ swap32 low = omega (arith, fields, lt_high) in
    swap64-fields y (omega (arith, fields, lt_low, lt_high))
    ∙ ap₂ (λ a b. swap32 a * 2 ^ 32 + swap32 b) bottom top
    ∙ omega (arith, swap32_twice low (omega arith), swap32_twice high (omega arith))

-- The four bytes of a word in memory.
abbrev pub memory_bytes : Bool → ℕ → List ℕ
memory_bytes true x = x % 2 ^ 8 ∷ x / 2 ^ 8 % 2 ^ 8 ∷ x / 2 ^ 16 % 2 ^ 8 ∷ x / 2 ^ 24 ∷ []
memory_bytes false x = x / 2 ^ 24 ∷ x / 2 ^ 16 % 2 ^ 8 ∷ x / 2 ^ 8 % 2 ^ 8 ∷ x % 2 ^ 8 ∷ []

pub swapped_bytes : (x : ℕ) → x < 2 ^ 32 → memory_bytes true (swap32 x) ≡ memory_bytes false x
swapped_bytes x h =
    let e = swap32-bytes x h in
    let first : swap32 x % 2 ^ 8 ≡ x / 2 ^ 24 = omega (arith, e) in
    let second : swap32 x / 2 ^ 8 % 2 ^ 8 ≡ x / 2 ^ 16 % 2 ^ 8 = omega (arith, e) in
    let third : swap32 x / 2 ^ 16 % 2 ^ 8 ≡ x / 2 ^ 8 % 2 ^ 8 = omega (arith, e) in
    let fourth : swap32 x / 2 ^ 24 ≡ x % 2 ^ 8 = omega (arith, e) in
    cc (first, second, third, fourth)

-- On a target of either byte order, with the pointers set or not yet, `hton32` of a word is a word whose bytes in
-- memory stand from the highest to the lowest; `ntoh32`, called after it, brings the word back; and so do the
-- functions for 64 bits.
pub hton32-memory_bytes :
    (little : Bool) (p : Pointers) (x y : ℕ)
    → Fits little p
    → x < 2 ^ 32
    → y < 2 ^ 64
    → let net = hton32 little p x in
      (memory_bytes little net.0 ≡ memory_bytes false x)
      × ((hton32 little net.1 net.0).0 ≡ x)
      × ((hton64 little (hton64 little p y).1 (hton64 little p y).0).0 ≡ y)
unfolding hton32 hton64
hton32-memory_bytes true initial x y fits low long =
    (swapped_bytes x low, swap32_twice x low, swap64_twice y long)
hton32-memory_bytes true swapping x y fits low long =
    (swapped_bytes x low, swap32_twice x low, swap64_twice y long)
hton32-memory_bytes true direct x y fits low long = cc
hton32-memory_bytes false initial x y fits low long = (refl, refl, refl)
hton32-memory_bytes false swapping x y fits low long = cc
hton32-memory_bytes false direct x y fits low long = (refl, refl, refl)
