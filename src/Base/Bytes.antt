-- ===== src/Base/Bytes.antt =====
-- Byte strings and their comparison, as `strcmp (a, b) == 0` on strings without their NUL.
use Prim.Native.Nat.{ℕ}
use mathlib.Core.Path.{◌≡◌, refl, ap₂}
use mathlib.Core.Logic.{◌↔◌}
use mathlib.Core.Bool.{Bool, true, false, ◌&&◌}
use mathlib.Core.List.{List, [], ◌∷◌}
use native.Mathlib.Omega.{arith}
use lz_lib.Base.Tests.{◌==◌}

unfoldable pub eq_bytes : List ℕ → List ℕ → Bool
eq_bytes [] [] = true
eq_bytes [] (b ∷ bs) = false
eq_bytes (a ∷ as_) [] = false
eq_bytes (a ∷ as_) (b ∷ bs) = (a == b) && eq_bytes as_ bs

pub eq_bytes→eq : (a b : List ℕ) → eq_bytes a b ≡ true → a ≡ b
unfolding eq_bytes
eq_bytes→eq [] [] h = refl
eq_bytes→eq [] (b ∷ bs) h = cc
eq_bytes→eq (a ∷ as_) [] h = cc
eq_bytes→eq (a ∷ as_) (b ∷ bs) h = ap₂ ◌∷◌ (ground arith) (eq_bytes→eq as_ bs (ground arith))

pub eq_bytes_refl : (a : List ℕ) → eq_bytes a a ≡ true
unfolding eq_bytes
eq_bytes_refl [] = refl
eq_bytes_refl (a ∷ as_) = ground (arith, eq_bytes_refl as_)

pub eq_bytes_iff : (a b : List ℕ) → (eq_bytes a b ≡ true) ↔ (a ≡ b)
eq_bytes_iff a b = (eq_bytes→eq a b, λ e. rw e (eq_bytes_refl b))
