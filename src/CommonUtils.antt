-- ===== src/CommonUtils.antt =====
-- The strings and numbers of src/common-utils.c.
--
-- A C string is the list of its bytes, without the NUL at its end; NULL is `none`. The C library's functions are a
-- parameter, with what their manual pages promise as hypotheses. `errno` is passed from call to call.
pub mod Numbers
pub mod Trim
mod Flags
pub mod Split
mod Tests
use lz_lib.Base.{Bool, ℕ, List, Option}
use lz_lib.Base.Int.{ℤ}

-- What `strtol` and its relatives give: the value, the text behind it and, of a call with `errno` 0, the `errno`.
pub record Converted (A : Type 0) : Type 0 where
  pub value : A
  pub tail : List ℕ
  pub errno : ℕ

-- The functions of the C library; the second argument of a conversion is its base.
pub record Libc : Type 0 where
  pub isspace : ℕ → Bool
  pub strcasecmp : List ℕ → List ℕ → ℤ
  pub strtol : List ℕ → ℕ → Converted ℤ
  pub strtoll : List ℕ → ℕ → Converted ℤ
  pub strtoul : List ℕ → ℕ → Converted ℕ
  pub strtoull : List ℕ → ℕ → Converted ℕ

-- A conversion's answer: its return value, what it stored in `*n`, and `errno`.
pub record Answer (A : Type 0) : Type 0 where
  pub ret : ℤ
  pub stored : Option A
  pub errno : ℕ

abbrev pub einval : ℕ
einval = 22

abbrev pub erange : ℕ
erange = 34
