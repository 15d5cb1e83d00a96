-- ===== src/CommonUtils/Trim.antt =====
-- `lz_trim` and `lz_volume_name_validate` of src/common-utils.c.
use lz_lib.Base.{
  ℕ, zero, suc, ◌-◌, ◌<◌, ◌≤◌, ◌≡◌, ◌⊎◌, inl, inr, refl, sym, ap, subst, ◌∙◌, Bool, true, false,
  Option, none, some, List, [], ◌∷◌, ◌++◌, All, length, get_elem?, take, drop, ◌==◌, if◌then◌else◌,
  arith, Run, ok, fault, bad_access, Bool-cases,
}

module _ (isspace : ℕ → Bool) where
  -- `for (s = string; isspace (*s); s++)`
  unfoldable pub skip_spaces : List ℕ → List ℕ
  skip_spaces [] = []
  skip_spaces (c ∷ s) = let rest = skip_spaces s in if isspace c then rest else c ∷ s

  -- `while (t > s && isspace (*t)) t--;`, by the index of `t`
  unfoldable pub last_place : List ℕ → ℕ → Run ℕ
  last_place s zero = ok zero
  last_place s (suc t) =
      let rest = last_place s t in
      elim (get_elem? s (suc t)) [
        | none ↦ fault bad_access
        | some c ↦ if isspace c then rest else ok (suc t)
      ]

  unfoldable pub trim_end : List ℕ → Run (Option (List ℕ))
  unfolding last_place
  trim_end [] = ok (some [])
  trim_end (c ∷ s) = elim (last_place (c ∷ s) (length (c ∷ s) - 1)) [
    | ok t ↦ ok (some (take (suc t) (c ∷ s)))
    | fault e ↦ fault e
  ]

  -- What the pointer that `lz_trim` returns leads to, up to the NUL.
  unfoldable pub lz_trim : Option (List ℕ) → Run (Option (List ℕ))
  unfolding skip_spaces trim_end
  lz_trim none = ok none
  lz_trim (some string) = trim_end (skip_spaces string)

  abbrev pub Space : ℕ → Type 0
  Space c = isspace c ≡ true

  -- Neither the first nor the last character is white space.
  abbrev pub Bare : List ℕ → Type 0
  Bare s =
      ((c : ℕ) → get_elem? s 0 ≡ some c → isspace c ≡ false)
      × ((c : ℕ) → get_elem? s (length s - 1) ≡ some c → isspace c ≡ false)

  skipped :
      (s : List ℕ)
      → (left : List ℕ) × (s ≡ left ++ skip_spaces s)
        × All Space left
        × ((c : ℕ) → get_elem? (skip_spaces s) 0 ≡ some c → isspace c ≡ false)
  unfolding skip_spaces
  skipped [] = ([], refl, tt, λ c e. cc)
  skipped (c ∷ s) = elim (Bool-cases (isspace c)) [
    | inl e ↦
        let (left, eq, all, bare) = skipped s in
        (c ∷ left, rw e (ap (λ t. c ∷ t) eq), (e, all), λ d f. bare d (ground arith))
    | inr e ↦ ([], ground arith, tt, λ d f. ground arith)
  ]

  -- The loop stops at a character that is not white space, or at the first; behind it there is white space only.
  abbrev Stops : List ℕ → ℕ → ℕ → Type 0
  Stops s t k =
      (last_place s t ≡ ok k)
      × (k ≤ t)
      × ((k ≡ 0) ⊎ ((c : ℕ) → get_elem? s k ≡ some c → isspace c ≡ false))
      × ((i c : ℕ) → k < i → i ≤ t → get_elem? s i ≡ some c → isspace c ≡ true)

  in_bounds : (s : List ℕ) (i : ℕ) → i < length s → (c : ℕ) × (get_elem? s i ≡ some c)
  in_bounds [] i h = absurd (omega arith)
  in_bounds (c ∷ s) zero h = (c, refl)
  in_bounds (c ∷ s) (suc i) h = in_bounds s i (omega arith)

  beyond :
      (s : List ℕ) (t k c : ℕ)
      → get_elem? s (suc t) ≡ some c
      → isspace c ≡ true
      → ((i d : ℕ) → k < i → i ≤ t → get_elem? s i ≡ some d → isspace d ≡ true)
      → (i d : ℕ) → k < i
      → i ≤ suc t
      → get_elem? s i ≡ some d
      → isspace d ≡ true
  beyond s t k c e w h i d a b g = elim (Bool-cases (i == suc t)) [
    | inl x ↦
        let same : i ≡ suc t = ground arith in
        let f : get_elem? s (suc t) ≡ some d = subst (λ j. get_elem? s j ≡ some d) same g in cc
    | inr x ↦ h i d a (ground arith) g
  ]

  stops : (s : List ℕ) (t : ℕ) → t < length s → (k : ℕ) × Stops s t k
  unfolding last_place
  stops s zero h = (0, (refl, omega arith, inl refl, λ i c a b. absurd (omega arith)))
  stops s (suc t) h =
      let (c, e) = in_bounds s (suc t) h in
      elim (Bool-cases (isspace c)) [
        | inl w ↦
            let (k, (run, le, front, behind)) = stops s t (omega arith) in
            (k, (ground (arith, e), omega arith, front, beyond s t k c e w behind))
        | inr w ↦ (
          suc t,
          (
            ground (arith, e),
            omega arith,
            inr (λ d g. ground (arith, e)),
            λ i d a b. absurd (omega arith),
          ),
        )
      ]

  take-drop : (n : ℕ) (s : List ℕ) → s ≡ take n s ++ drop n s
  take-drop zero s = refl
  take-drop (suc n) [] = refl
  take-drop (suc n) (c ∷ s) = ap (λ t. c ∷ t) (take-drop n s)

  All-drop :
      (n : ℕ) (s : List ℕ)
      → ((i c : ℕ) → n ≤ i → get_elem? s i ≡ some c → isspace c ≡ true)
      → All Space (drop n s)
  All-drop zero [] h = tt
  All-drop zero (c ∷ s) h =
      (h 0 c (omega arith) refl, All-drop zero s (λ i d a e. h (suc i) d (omega arith) e))
  All-drop (suc n) [] h = tt
  All-drop (suc n) (c ∷ s) h = All-drop n s (λ i d a e. h (suc i) d (omega arith) e)

  index_lt : (s : List ℕ) (i c : ℕ) → get_elem? s i ≡ some c → i < length s
  index_lt [] i c e = cc
  index_lt (x ∷ s) zero c e = omega arith
  index_lt (x ∷ s) (suc i) c e = omega (arith, index_lt s i c e)

  get_elem?-take :
      (s : List ℕ) (k : ℕ)
      → k < length s
      → (length (take (suc k) s) ≡ suc k) × (get_elem? (take (suc k) s) k ≡ get_elem? s k)
  get_elem?-take [] k h = absurd (omega arith)
  get_elem?-take (c ∷ s) zero h = (refl, refl)
  get_elem?-take (c ∷ s) (suc k) h = let (n, e) = get_elem?-take s k (omega arith) in (ap suc n, e)

  -- What is left of a text that starts with no white space.
  Ended : List ℕ → List ℕ → List ℕ → Type 0
  Ended s mid right = (s ≡ mid ++ right) × (trim_end s ≡ ok (some mid)) × All Space right × Bare mid

  finish_at :
      (c : ℕ) (s : List ℕ) (k : ℕ)
      → ((d : ℕ) → get_elem? (c ∷ s) 0 ≡ some d → isspace d ≡ false)
      → Stops (c ∷ s) (length s) k
      → Ended (c ∷ s) (take (suc k) (c ∷ s)) (drop (suc k) (c ∷ s))
  unfolding trim_end Ended
  finish_at c s k h (run, le, front, behind) = (
    take-drop (suc k) (c ∷ s),
    ground (arith, run),
    All-drop (suc k) (c ∷ s)
        (λ i d a e. behind i d (omega arith) (omega (arith, index_lt (c ∷ s) i d e)) e),
    (
      h,
      λ d e.
          let there : get_elem? (c ∷ s) k ≡ some d =
            sym (get_elem?-take (c ∷ s) k (omega arith)).1
            ∙ subst (λ j. get_elem? (take (suc k) (c ∷ s)) j ≡ some d)
                (omega (arith, (get_elem?-take (c ∷ s) k (omega arith)).0)) e in
          elim front [
            | inl z ↦ h d (subst (λ j. get_elem? (c ∷ s) j ≡ some d) z there)
            | inr f ↦ f d there
          ],
    ),
  )

  ended :
      (s : List ℕ)
      → ((c : ℕ) → get_elem? s 0 ≡ some c → isspace c ≡ false)
      → (mid right : List ℕ) × Ended s mid right
  unfolding trim_end Ended
  ended [] h = ([], [], (refl, refl, tt, (λ c e. cc, λ c e. cc)))
  ended (c ∷ s) h =
      let (k, stop) = stops (c ∷ s) (length s) (omega arith) in
      (take (suc k) (c ∷ s), drop (suc k) (c ∷ s), finish_at c s k h stop)

  -- `lz_trim` stays within its string, and what its pointer leads to is the string without the white space at its start
  -- and at its end: around it there is white space only, and its own first and last characters are none.
  pub lz_trim-Bare :
      (string : List ℕ)
      → (left mid right : List ℕ) × (lz_trim (some string) ≡ ok (some mid))
        × (string ≡ left ++ (mid ++ right))
        × All Space left
        × All Space right
        × Bare mid
  unfolding lz_trim Ended
  lz_trim-Bare string =
      let (left, eq, all, first) = skipped string in
      let (mid, right, whole) = ended (skip_spaces string) first in
      let (split, run, behind, bare) = whole in
      (left, mid, right, run, eq ∙ ap (λ t. left ++ t) split, all, behind, bare)
