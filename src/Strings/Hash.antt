-- ===== src/Strings/Hash.antt =====
-- The cached hash of a string.
use infos.Prelude.{◌≡◌, refl, true, Bool-cases, inl, inr}
use infos.Strings.{CppString, move_string, compute_hash, get_hash}

-- A hash that is kept is the string's.
abbrev pub KeepsHash : CppString → Type 0
KeepsHash s = s.has_hash ≡ true → s.hash ≡ compute_hash s

-- Where a hash that is kept is the string's, `get_hash` is the hash of the characters, and keeps both
-- the characters and the rule.
pub get_hash_lem :
    (s : CppString)
    → KeepsHash s
    → ((get_hash s).0 ≡ compute_hash s)
      × ((get_hash s).1.chars ≡ s.chars)
      × KeepsHash (get_hash s).1
unfolding get_hash
get_hash_lem s keeps = elim (Bool-cases s.has_hash) [
  | inl e ↦ rw (get_hash, e) (keeps e, refl, λ _. keeps e)
  | inr e ↦ rw (get_hash, e) (refl, refl, λ _. refl)
]

-- The constructor that moves a string keeps the flag in place of the hash: the hash of the new
-- string is 1 if that of the old one was known.
move_string_hash : (s : CppString) → s.has_hash ≡ true → (get_hash (move_string s)).0 ≡ 1
unfolding get_hash
move_string_hash s e = rw e refl
