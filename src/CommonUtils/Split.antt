-- ===== src/CommonUtils/Split.antt =====
-- `lz_strsplit` of src/common-utils.c.
--
-- `strsep` is a parameter: from the running string and the delimiters it makes a token and the new running string, NULL
-- at the end. The strings that `strdup` makes are counted, not their bytes.
pub mod Words
pub mod Laws
use lz_lib.Base.{
  ℕ, zero, suc, ◌+◌, ◌-◌, Option, none, some, List, [], ◌∷◌, ◌++◌, length, ltb, ◌==◌, if◌then◌else◌,
  Run, ok, fault, bad_access, out_of_fuel, ◌>>=◌,
}

-- The heap: how many allocations still succeed, and how many objects are live.
pub record Memory : Type 0 where
  pub room : ℕ
  pub live : ℕ

unfoldable pub alloc : Memory → Option Memory
alloc m = if m.room == 0 then none else some (record { room = m.room - 1; live = m.live + 1 })

unfoldable pub free : ℕ → Memory → Memory
free n m = record m { live = m.live - n }

-- What the second loop leaves: the array of tokens, or, where `strdup` fails, how many tokens are in it.
pub data Filled : Type 0 where
  filled : List (List ℕ) → Memory → Filled
  broken : ℕ → Memory → Filled

unfoldable pub one_token : List ℕ → ℕ
one_token [] = 0
one_token (c ∷ cs) = 1

-- A round of the second loop, and those behind it
unfoldable pub put_token :
    (Option (List ℕ) → List (List ℕ) → Memory → Run Filled)
    → ℕ
    → List ℕ
    → Option (List ℕ)
    → List (List ℕ)
    → Memory
    → Run Filled
unfolding alloc
put_token rounds count [] running tokens m = rounds running tokens m
put_token rounds count (c ∷ cs) running tokens m =
    if ltb (length tokens) count
    then elim (alloc m) [
      | none ↦ ok (broken (length tokens) m)
      | some m' ↦ rounds running (tokens ++ ((c ∷ cs) ∷ [])) m'
    ]
    else fault bad_access

-- `*tokens` and `*token_count`, or `return -1`.
unfoldable pub finish_split : ℕ → Filled → Option (List (List ℕ) × ℕ) × Memory
unfolding free
finish_split count (filled tokens m) = (some (tokens, count), free 1 m)
finish_split count (broken i m) = (none, free 1 (free i (free 1 m)))

module _ (strsep : List ℕ → List ℕ → List ℕ × Option (List ℕ)) (delim : List ℕ) where
  -- The first loop
  unfoldable pub count_loop : ℕ → Option (List ℕ) → ℕ → Run ℕ
  unfolding one_token
  count_loop zero running count = fault out_of_fuel
  count_loop (suc fuel) none count = ok count
  count_loop (suc fuel) (some running) count =
      count_loop fuel (strsep running delim).1 (count + one_token (strsep running delim).0)

  unfoldable pub fill_loop : ℕ → ℕ → Option (List ℕ) → List (List ℕ) → Memory → Run Filled
  unfolding put_token
  fill_loop zero count running tokens m = fault out_of_fuel
  fill_loop (suc fuel) count none tokens m = ok (filled tokens m)
  fill_loop (suc fuel) count (some running) tokens m =
      put_token (fill_loop fuel count) count (strsep running delim).0 (strsep running delim).1
        tokens m

  unfoldable pub lz_strsplit :
      ℕ → Option (List ℕ) → Memory → Run (Option (List (List ℕ) × ℕ) × Memory)
  unfolding alloc free count_loop fill_loop finish_split
  lz_strsplit fuel none m = ok (none, m)
  lz_strsplit fuel (some str) m = elim (alloc m) [
    | none ↦ ok (none, m)
    | some m1 ↦ count_loop fuel (some str) 0 >>= λ count. elim (alloc (free 1 m1)) [
      | none ↦ ok (none, free 1 m1)
      | some m2 ↦ elim (alloc m2) [
        | none ↦ ok (none, free 1 m2)
        | some m3 ↦ fill_loop fuel count (some str) [] m3 >>= λ r. ok (finish_split count r)
      ]
    ]
  ]
