-- ===== src/CommonUtils/Split/Laws.antt =====
-- `lz_strsplit` gives the words of its string.
use lz_lib.Base.{
  length-append, ℕ, zero, suc, ◌+◌, ◌-◌, ◌<◌, ◌≤◌, ◌≡◌, ◌⊎◌, inl, inr, refl, sym, ap, ◌∙◌, Bool,
  true, false, Option, none, some, List, [], ◌∷◌, ◌++◌, All, length, ltb, ◌==◌, arith, Run, ok,
  ◌>>=◌, Bool-cases,
}
use mathlib.Core.List.{append_assoc, append-nil}
use lz_lib.CommonUtils.Split.{
  Memory, alloc, free, Filled, filled, broken, one_token, count_loop, put_token, fill_loop,
  finish_split, lz_strsplit,
}
use lz_lib.CommonUtils.Split.Words.{emit, words, words_from-last, words_from-delim}

length-emit : (t : List ℕ) (ts : List (List ℕ)) → length (emit t ++ ts) ≡ one_token t + length ts
unfolding one_token
length-emit [] ts = omega arith
length-emit (c ∷ cs) ts = omega arith

-- The tokens that are filled in, or the allocation that fails.
abbrev Fills : List (List ℕ) → List (List ℕ) → Memory → Run Filled → Type 0
Fills more tokens m r =
    ((length more ≤ m.room)
      × (m' : Memory) × (r ≡ ok (filled (tokens ++ more) m'))
      × (m'.live ≡ m.live + length more))
    ⊎ ((m.room < length more)
        × (k : ℕ) × (m' : Memory) × (r ≡ ok (broken k m'))
        × (m'.live + length tokens ≡ m.live + k))

module _ (rounds : Option (List ℕ) → List (List ℕ) → Memory → Run Filled)
    (more : List (List ℕ)) where
  put_token-Fills :
      (count : ℕ) (t : List ℕ) (rest : Option (List ℕ)) (tokens : List (List ℕ)) (m : Memory)
      → ((tokens' : List (List ℕ)) (m' : Memory)
          → length tokens' + length more ≤ count
          → Fills more tokens' m' (rounds rest tokens' m'))
      → length tokens + length (emit t ++ more) ≤ count
      → Fills (emit t ++ more) tokens m (put_token rounds count t rest tokens m)
  unfolding put_token alloc
  put_token-Fills count [] rest tokens m ih b = ih tokens m b
  put_token-Fills count (c ∷ cs) rest tokens m ih b =
      let w = c ∷ cs in
      let inside : ltb (length tokens) count ≡ true = ground arith in
      elim (Bool-cases (m.room == 0)) [
        | inl z ↦
            let stop : put_token rounds count w rest tokens m ≡ ok (broken (length tokens) m) =
              ground arith in
            inr (ground arith, length tokens, m, stop, refl)
        | inr z ↦
            let m1 : Memory = record { room = m.room - 1; live = m.live + 1 } in
            let go : put_token rounds count w rest tokens m ≡ rounds rest (tokens ++ (w ∷ [])) m1 =
              ground arith in
            let len = length-append tokens (w ∷ []) in
            let held : 0 < m.room = ground arith in
            elim (ih (tokens ++ (w ∷ [])) m1 (omega arith)) [
              | inl (le, m', run, live) ↦ inl (
                omega arith,
                m',
                go ∙ run ∙ ap (λ t. ok (filled t m')) (append_assoc tokens (w ∷ []) more),
                omega arith,
              )
              | inr (lt, k, m', run, live) ↦ inr (omega arith, k, m', go ∙ run, omega arith)
            ]
      ]

module _ (strsep : List ℕ → List ℕ → List ℕ × Option (List ℕ)) (delim : List ℕ)
    (is_delim : ℕ → Bool) where
  -- What `strsep` promises: the token ends before the first delimiter, or with the string.
  abbrev pub Separated : List ℕ → List ℕ → Option (List ℕ) → Type 0
  Separated running t none = (running ≡ t) × All (λ c. is_delim c ≡ false) t
  Separated running t (some rest) =
      (d : ℕ) × (running ≡ t ++ (d ∷ rest)) × (is_delim d ≡ true) × All (λ c. is_delim c ≡ false) t

  abbrev pub Separates : Type 0
  Separates =
      (running : List ℕ) → Separated running (strsep running delim).0 (strsep running delim).1

  abbrev tokens_of : Option (List ℕ) → List (List ℕ)
  tokens_of none = []
  tokens_of (some running) = words is_delim running

  abbrev rounds_of : Option (List ℕ) → ℕ
  rounds_of none = 1
  rounds_of (some running) = length running + 2

  length-behind : (t : List ℕ) (d : ℕ) (s : List ℕ) → length s < length (t ++ (d ∷ s))
  length-behind [] d s = omega arith
  length-behind (c ∷ t) d s = omega (arith, length-behind t d s)

  tokens_step :
      (running t : List ℕ) (rest : Option (List ℕ))
      → Separated running t rest
      → (words is_delim running ≡ emit t ++ tokens_of rest)
        × (rounds_of rest < rounds_of (some running))
  tokens_step running t none (e, h) =
      (rw e (words_from-last is_delim [] t h ∙ sym (append-nil (emit t))), omega arith)
  tokens_step running t (some rest) (d, e, f, h) = (
    rw e (words_from-delim is_delim [] t d rest h f),
    rw e (omega (arith, length-behind t d rest)),
  )

  count_loop-tokens :
      (fuel : ℕ) (running : Option (List ℕ)) (count : ℕ)
      → Separates
      → rounds_of running ≤ fuel
      → count_loop strsep delim fuel running count ≡ ok (count + length (tokens_of running))
  unfolding count_loop
  count_loop-tokens zero none count s b = absurd (omega arith)
  count_loop-tokens zero (some running) count s b = absurd (omega arith)
  count_loop-tokens (suc fuel) none count s b = ground arith
  count_loop-tokens (suc fuel) (some running) count s b =
      let t = (strsep running delim).0 in
      let rest = (strsep running delim).1 in
      let (e, less) = tokens_step running t rest (s running) in
      count_loop-tokens fuel rest (count + one_token t) s (omega arith)
      ∙ ap ok (omega (arith, ap length e, length-emit t (tokens_of rest)))

  fill_loop-Fills :
      (fuel count : ℕ) (running : Option (List ℕ)) (tokens : List (List ℕ)) (m : Memory)
      → Separates
      → rounds_of running ≤ fuel
      → length tokens + length (tokens_of running) ≤ count
      → Fills (tokens_of running) tokens m (fill_loop strsep delim fuel count running tokens m)
  unfolding fill_loop
  fill_loop-Fills zero count none tokens m s b c = absurd (omega arith)
  fill_loop-Fills zero count (some running) tokens m s b c = absurd (omega arith)
  fill_loop-Fills (suc fuel) count none tokens m s b c =
      inl (omega arith, m, ap (λ t. ok (filled t m)) (sym (append-nil tokens)), omega arith)
  fill_loop-Fills (suc fuel) count (some running) tokens m s b c =
      let t = (strsep running delim).0 in
      let rest = (strsep running delim).1 in
      let (e, less) = tokens_step running t rest (s running) in
      rw e (
        put_token-Fills (fill_loop strsep delim fuel count) (tokens_of rest) count t rest tokens m
          (λ tokens' m' d. fill_loop-Fills fuel count rest tokens' m' s (omega arith) d)
          (omega (arith, ap length e)))

  -- `lz_strsplit` with an allocator of some room, a `strsep` that separates at the delimiters, and two rounds more
  -- than the string has bytes: it ends, writes its array within bounds, and either gives the words of the string and
  -- their number, with one object more for each word and one for the array, or returns -1 with nothing left behind.
  -- The first is so exactly if there is room for the array, the words and two copies of the string.
  pub lz_strsplit-words :
      (fuel : ℕ) (str : List ℕ) (m : Memory)
      → Separates
      → length str + 2 ≤ fuel
      → (m' : Memory) × (((length (words is_delim str) + 3 ≤ m.room)
            × (lz_strsplit strsep delim fuel (some str) m
                ≡ ok (some (words is_delim str, length (words is_delim str)), m'))
            × (m'.live ≡ m.live + 1 + length (words is_delim str)))
          ⊎ ((m.room < length (words is_delim str) + 3)
              × (lz_strsplit strsep delim fuel (some str) m ≡ ok (none, m'))
              × (m'.live ≡ m.live)))
  unfolding lz_strsplit alloc free finish_split
  lz_strsplit-words fuel str m s b =
      let ws = words is_delim str in
      let counted : count_loop strsep delim fuel (some str) 0 ≡ ok (length ws) =
        count_loop-tokens fuel (some str) 0 s b ∙ ap ok (omega arith) in
      elim (Bool-cases (ltb m.room 3)) [
        | inl few ↦
            let back : Memory = record m { room = 0 } in
            (back, inr (ground arith, ground (arith, counted), ground arith))
        | inr room ↦
            let m3 : Memory = record { room = m.room - 1 - 1 - 1; live = m.live + 1 - 1 + 1 + 1 } in
            let go : lz_strsplit strsep delim fuel (some str) m
                ≡ fill_loop strsep delim fuel (length ws) (some str) [] m3
                  >>= (λ r. ok (finish_split (length ws) r)) =
              ground (arith, counted) in
            elim (fill_loop-Fills fuel (length ws) (some str) [] m3 s b (omega arith)) [
              | inl (le, m', run, live) ↦ (
                free 1 m',
                inl (
                  ground arith,
                  go ∙ ap (λ r. r >>= (λ x. ok (finish_split (length ws) x))) run,
                  ground arith,
                ),
              )
              | inr (lt, k, m', run, live) ↦ (
                free 1 (free k (free 1 m')),
                inr (
                  ground arith,
                  go ∙ ap (λ r. r >>= (λ x. ok (finish_split (length ws) x))) run,
                  ground arith,
                ),
              )
            ]
      ]
