-- ===== src/Hash/Tests.antt =====
-- The hashes on concrete strings, and the theorems at these.
use lz_lib.Base.{ℕ, ◌≡◌, refl, List, [], ◌∷◌, ok}
use lz_lib.Hash.{really_simple_hash, super_fast_hash, sign_extend}
use lz_lib.Hash.Laws.{really_simple_hash_first}

abbrev hello : List ℕ
hello = b'h' ∷ b'e' ∷ b'l' ∷ b'l' ∷ b'o' ∷ []

really_simple_hash_first_example :
    really_simple_hash (b'a' ∷ hello) 5 ≡ really_simple_hash (b'z' ∷ hello) 5
really_simple_hash_first_example = really_simple_hash_first b'a' b'z' hello 5

really_simple_hash_runs : really_simple_hash (b'a' ∷ b'b' ∷ b'c' ∷ []) 2 ≡ ok 1
unfolding really_simple_hash sign_extend
really_simple_hash_runs = refl

super_fast_hash_runs : super_fast_hash hello ≡ 2963130491
unfolding super_fast_hash
super_fast_hash_runs = refl
