-- ===== src/Strings/Tests.antt =====
-- Strings at concrete inputs.
use infos.Prelude.{ℕ, ◌≡◌, refl, true, false, some, List, [], ◌∷◌, arith}
use infos.Strings.{CppString, of_chars, compute_hash, hash_from, split, to_string}
use infos.Strings.Split.{join, AreFree, split_keep}

abbrev one : List ℕ
one = 97 ∷ []

-- "a/bc"
abbrev path : List ℕ
path = 97 ∷ 47 ∷ 98 ∷ 99 ∷ []

to_string_305 : to_string 305 ≡ 51 ∷ 48 ∷ 53 ∷ []
unfolding to_string
to_string_305 = refl

split-path :
    split 9 (of_chars path) 47 true ≡ some (of_chars (97 ∷ []) ∷ of_chars (98 ∷ 99 ∷ []) ∷ [])
unfolding split
split-path = refl

-- The FNV-1a hash of "a".
compute_hash_a : compute_hash (of_chars (97 ∷ [])) ≡ 12638187200555641996
unfolding compute_hash hash_from
compute_hash_a = refl

split_keep_example :
    (parts : List CppString) × (split 5 (of_chars path) 47 false ≡ some parts)
    × (join 47 parts ≡ path)
    × AreFree 47 parts
split_keep_example = split_keep 5 47 (of_chars path) (omega arith)
