-- ===== src/CommonUtils/Split/Words.antt =====
-- The words of a text, between the delimiters.
use lz_lib.Base.{ℕ, ◌≡◌, refl, ap, ◌∙◌, Bool, true, false, List, [], ◌∷◌, ◌++◌, All, if◌then◌else◌}
use mathlib.Core.List.{append_assoc, append-nil}

-- A word, if it is not empty.
abbrev pub emit : List ℕ → List (List ℕ)
emit [] = []
emit (c ∷ cs) = (c ∷ cs) ∷ []

module _ (is_delim : ℕ → Bool) where
  -- The words of a text that comes behind the start `word` of one.
  unfoldable pub words_from : List ℕ → List ℕ → List (List ℕ)
  words_from word [] = emit word
  words_from word (c ∷ s) =
      let next = words_from [] s in
      let longer = words_from (word ++ (c ∷ [])) s in
      if is_delim c then emit word ++ next else longer

  abbrev pub words : List ℕ → List (List ℕ)
  words s = words_from [] s

  pub words_from-last :
      (word t : List ℕ) → All (λ c. is_delim c ≡ false) t → words_from word t ≡ emit (word ++ t)
  unfolding words_from
  words_from-last word [] h = rw (append-nil word) refl
  words_from-last word (c ∷ t) h =
      rw h.0 (words_from-last (word ++ (c ∷ [])) t h.1 ∙ ap emit (append_assoc word (c ∷ []) t))

  pub words_from-delim :
      (word t : List ℕ) (d : ℕ) (s : List ℕ)
      → All (λ c. is_delim c ≡ false) t
      → is_delim d ≡ true
      → words_from word (t ++ (d ∷ s)) ≡ emit (word ++ t) ++ words s
  unfolding words_from
  words_from-delim word [] d s h e = rw (append-nil word, e) refl
  words_from-delim word (c ∷ t) d s h e = rw h.0 (
      words_from-delim (word ++ (c ∷ [])) t d s h.1 e
      ∙ ap (λ w. emit w ++ words s) (append_assoc word (c ∷ []) t))
