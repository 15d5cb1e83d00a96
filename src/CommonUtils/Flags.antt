-- ===== src/CommonUtils/Flags.antt =====
-- `log_base2`, `lz_volume_name_validate` and `lz_string2boolean` of src/common-utils.c.
use lz_lib.Base.{
  ap, ◌∙◌, ℕ, zero, suc, ◌+◌, ◌*◌, ◌/◌, ◌^◌, ◌<◌, ◌≤◌, ◌≡◌, inl, inr, Bool, true, false, ◌||◌,
  Option, none, some, List, [], ◌∷◌, All, ltb, ltb→lt, ◌==◌, if◌then◌else◌, arith, Bool-cases, Run,
  ok, fault, out_of_fuel,
}
use native.Mathlib.Nat.{pow-suc}
use lz_lib.Base.Int.{ℤ, pos, negsuc, eqb_ℤ}

-- `while (x > 1)`
unfoldable halve : ℕ → ℕ → ℕ → Run ℕ
halve zero x val = fault out_of_fuel
halve (suc fuel) x val = let rest = halve fuel (x / 2) (val + 1) in if ltb 1 x then rest else ok val

-- An `unsigned long` is halved 63 times at most.
unfoldable log_base2 : ℕ → Run ℕ
unfolding halve
log_base2 x = halve 64 x 0

half : (p x : ℕ) → x < p * 2 → x / 2 < p
half p x h = omega arith

halve-log :
    (fuel x val : ℕ)
    → 0 < x
    → x < 2 ^ suc fuel
    → (k : ℕ) × (halve (suc fuel) x val ≡ ok (val + k)) × (2 ^ k ≤ x) × (x < 2 ^ suc k)
unfolding halve
halve-log zero x val some_bit small = (0, ground arith, omega arith, small)
halve-log (suc fuel) x val some_bit small = elim (Bool-cases (ltb 1 x)) [
  | inr e ↦ (0, ground arith, ground arith, ground arith)
  | inl e ↦
      let less = half (2 ^ suc fuel) x (omega (arith, pow-suc 2 (suc fuel))) in
      let two : 1 < x = ltb→lt 1 x e in
      let (k, run, low, high) = halve-log fuel (x / 2) (val + 1) (omega arith) less in
      (
        suc k,
        rw e (run ∙ ap ok (omega arith)),
        omega (arith, pow-suc 2 k),
        omega (arith, pow-suc 2 (suc k)),
      )
]

-- `log_base2` of a positive `unsigned long` ends, with the number of its highest bit.
log_base2-highest :
    (x : ℕ) → 0 < x → x < 2 ^ 64 → (k : ℕ) × (log_base2 x ≡ ok k) × (2 ^ k ≤ x) × (x < 2 ^ suc k)
unfolding log_base2
log_base2-highest x some_bit small =
    let (k, run, low, high) = halve-log 63 x 0 some_bit small in
    (k, run ∙ ap ok (omega arith), low, high)

module _ (isalpha isalnum : ℕ → Bool) where
  -- The loop behind the first character.
  unfoldable name_tail : List ℕ → ℤ
  name_tail [] = pos 0
  name_tail (c ∷ s) = let rest = name_tail s in if isalnum c || (c == b'_') then rest else pos 1

  -- `isalpha` of the NUL of an empty name is false.
  unfoldable lz_volume_name_validate : Option (List ℕ) → ℤ
  unfolding name_tail
  lz_volume_name_validate none = negsuc 0
  lz_volume_name_validate (some []) = pos 1
  lz_volume_name_validate (some (c ∷ s)) = if isalpha c then name_tail s else pos 1

  name_tail-All :
      (s : List ℕ) → All (λ c. (isalnum c || (c == b'_')) ≡ true) s → name_tail s ≡ pos 0
  unfolding name_tail
  name_tail-All [] h = ground arith
  name_tail-All (c ∷ s) h = rw h.0 (name_tail-All s h.1)

  All-name_tail :
      (s : List ℕ) → name_tail s ≡ pos 0 → All (λ c. (isalnum c || (c == b'_')) ≡ true) s
  unfolding name_tail
  All-name_tail [] e = tt
  All-name_tail (c ∷ s) e = elim (Bool-cases (isalnum c || (c == b'_'))) [
    | inl t ↦ (t, All-name_tail s (ground arith))
    | inr f ↦ absurd (ground arith)
  ]

module _ (strcasecmp : List ℕ → List ℕ → ℤ) where
  unfoldable is_one_of : List ℕ → List (List ℕ) → Bool
  is_one_of str [] = false
  is_one_of str (w ∷ ws) = eqb_ℤ (strcasecmp str w) (pos 0) || is_one_of str ws

  -- The return value, and what is stored in `*b`.
  unfoldable lz_string2boolean : Option (List ℕ) → ℤ × Option Bool
  unfolding is_one_of
  lz_string2boolean none = (negsuc 0, none)
  lz_string2boolean (some str) =
      if is_one_of str (
        (b'1' ∷ [])
        ∷ ((b'o' ∷ (b'n' ∷ []))
            ∷ ((b'y' ∷ (b'e' ∷ (b's' ∷ [])))
                ∷ ((b't' ∷ (b'r' ∷ (b'u' ∷ (b'e' ∷ []))))
                    ∷ ((b'e' ∷ (b'n' ∷ (b'a' ∷ (b'b' ∷ (b'l' ∷ (b'e' ∷ [])))))) ∷ [])))))
      then (pos 0, some true)
      else (if is_one_of str (
            (b'0' ∷ [])
            ∷ ((b'o' ∷ (b'f' ∷ (b'f' ∷ [])))
                ∷ ((b'n' ∷ (b'o' ∷ []))
                    ∷ ((b'f' ∷ (b'a' ∷ (b'l' ∷ (b's' ∷ (b'e' ∷ [])))))
                        ∷ ((b'd' ∷ (b'i' ∷ (b's' ∷ (b'a' ∷ (b'b' ∷ (b'l' ∷ (b'e' ∷ [])))))))
                            ∷ [])))))
          then (pos 0, some false)
          else (negsuc 0, none))
