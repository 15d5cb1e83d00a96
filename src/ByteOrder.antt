-- ===== src/ByteOrder.antt =====
-- The byte order of src/byte-order.h: `hton16`, `hton32` and `hton64`, function pointers that the first call
-- sets. `ntoh16` and the others are the same pointers.
--
-- A mask of low bits is a remainder, and a mask of the bits above it, shifted down, is a remainder of the
-- quotient. `little` is whether the target is little-endian, which the source asks of the number 1.
pub mod Laws
mod Tests
use lz_lib.Base.{
  ℕ, ◌*◌, ◌/◌, ◌%◌, ◌^◌, Bool, true, false, bit_or, ◌<<<◌, List, [], ◌∷◌, if◌then◌else◌,
}

-- `do_swap2`, `do_swap4` and `do_swap8`, which are `__swap16`, `__swap32` and `__swap64`.
unfoldable pub swap16 : ℕ → ℕ
swap16 x = bit_or ((x % 2 ^ 8) <<< 8) (x / 2 ^ 8 % 2 ^ 8)

unfoldable pub swap32 : ℕ → ℕ
unfolding swap16
swap32 x = bit_or (swap16 (x % 2 ^ 16) <<< 16) (swap16 (x / 2 ^ 16 % 2 ^ 16))

unfoldable pub swap64 : ℕ → ℕ
unfolding swap32
swap64 x = bit_or (swap32 (x % 2 ^ 32) <<< 32) (swap32 (x / 2 ^ 32 % 2 ^ 32))

-- What the three pointers hold: the `__byte_order_init` functions, the `__swap` or the `__noswap` ones.
pub data Pointers : Type 0 where
  initial swapping direct : Pointers

-- `__byte_order_init16`, `__byte_order_init32` and `__byte_order_init64`: each sets all three pointers.
abbrev pub byte_order_init : Bool → Pointers
byte_order_init little = if little then swapping else direct

unfoldable pub byte_order_init16 : Bool → ℕ → ℕ × Pointers
unfolding swap16
byte_order_init16 little i = (if little then swap16 i else i, byte_order_init little)

unfoldable pub byte_order_init32 : Bool → ℕ → ℕ × Pointers
unfolding swap32
byte_order_init32 little i = (if little then swap32 i else i, byte_order_init little)

unfoldable pub byte_order_init64 : Bool → ℕ → ℕ × Pointers
unfolding swap64
byte_order_init64 little i = (if little then swap64 i else i, byte_order_init little)

-- A call through a pointer, and the pointers behind it.
unfoldable pub hton16 : Bool → Pointers → ℕ → ℕ × Pointers
unfolding byte_order_init16 swap16
hton16 little initial x = byte_order_init16 little x
hton16 little swapping x = (swap16 x, swapping)
hton16 little direct x = (x, direct)

unfoldable pub hton32 : Bool → Pointers → ℕ → ℕ × Pointers
unfolding byte_order_init32 swap32
hton32 little initial x = byte_order_init32 little x
hton32 little swapping x = (swap32 x, swapping)
hton32 little direct x = (x, direct)

unfoldable pub hton64 : Bool → Pointers → ℕ → ℕ × Pointers
unfolding byte_order_init64 swap64
hton64 little initial x = byte_order_init64 little x
hton64 little swapping x = (swap64 x, swapping)
hton64 little direct x = (x, direct)
