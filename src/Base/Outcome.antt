-- ===== src/Base/Outcome.antt =====
-- The outcome of code that can leave the defined behaviour of C: a value, or a fault.
use mathlib.Core.Path.{◌≡◌}

-- `bad_access` is a read or write outside an object, or through a null or freed pointer; `deadlock`
-- is a mutex that its own holder locks again; `aborted` is a call of `abort` or a failed `assert`.
pub data Fault : Type 0 where
  bad_access deadlock aborted div_by_zero out_of_fuel : Fault

pub data Run {ℓ} (A : Type ℓ) : Type ℓ where
  ok : A → Run A
  fault : Fault → Run A

pub ok-injective {ℓ} : {A : Type ℓ} {a b : A} → ok a ≡ ok b → a ≡ b
ok-injective h = cc

infixl 5 ◌>>=◌ ◌>>◌
abbrev pub ◌>>=◌ {ℓ κ} : {A : Type ℓ} {B : Type κ} → Run A → (A → Run B) → Run B
fault why >>= next = fault why
ok x >>= next = next x

abbrev pub ◌>>◌ {ℓ κ} : {A : Type ℓ} {B : Type κ} → Run A → Run B → Run B
first >> second = first >>= λ done. second
