-- ===== src/Strings.antt =====
-- util/string.cpp and include/infos/util/string.h. A `const char *` is the list of the characters
-- from where it points to the end of the object that it points into; characters are their codes, and
-- 0 is the NUL. `none` is a read or a write behind the object.
pub mod Cells
pub mod Split
pub mod Hash
mod Tests
use Prim.Native.Nat.{bit_xor}
use infos.Prelude.{
  ℕ, zero, suc, ◌+◌, ◌-◌, ◌*◌, ◌/◌, ◌%◌, ◌^◌, Bool, true, false, not, ◌&&◌, ◌||◌, Option, none,
  some, List, [], ◌∷◌, ◌++◌, ltb, leb, ◌==◌, if◌then◌else◌, ◌>>=◌, ◌>>◌, assert, length, get_or,
}

-- The loop of `strlen`; the result counts from `counter`.
unfoldable pub count_from : ℕ → List ℕ → Option ℕ
count_from counter [] = none
count_from counter (c ∷ str) = elim (c == 0) [
  | true ↦ some counter
  | false ↦ count_from (counter + 1) str
]

-- `strlen`, of a pointer that may be NULL.
unfoldable pub strlen : Option (List ℕ) → Option ℕ
unfolding count_from
strlen none = some 0
strlen (some str) = count_from 0 str

-- The loop of `strncmp`: `none` inside is equality, as far as it looks, and `true` a difference.
unfoldable pub compare_from : List ℕ → List ℕ → ℕ → Option Bool
compare_from [] ys n = none
compare_from (x ∷ xs) [] n = if x == 0 then some false else none
compare_from (x ∷ xs) (y ∷ ys) zero = some false
compare_from (x ∷ xs) (y ∷ ys) (suc n) =
    let rest = compare_from xs ys n in
    if x == 0 || y == 0 then some false else if x == y then rest else some true

-- `strncmp(str1, str2, n) != 0`
unfoldable pub strncmp : List ℕ → List ℕ → ℕ → Option Bool
unfolding strlen compare_from
strncmp str1 str2 n = do
  len1 ← strlen (some str1)
  len2 ← strlen (some str2)
  if len1 == len2 then compare_from str1 str2 n else some true

-- A write through `dest`.
abbrev pub put : ℕ → List ℕ → Option (List ℕ)
put c [] = none
put c (_ ∷ dest) = some (c ∷ dest)

abbrev pub put_before : ℕ → List ℕ → (List ℕ → Option (List ℕ)) → Option (List ℕ)
put_before c [] more = none
put_before c (_ ∷ dest) more = more dest >>= λ rest. some (c ∷ rest)

-- `strncpy`: `--n` is on a 64-bit size. The result is what `dest` points to after the call.
unfoldable pub strncpy : List ℕ → List ℕ → ℕ → Option (List ℕ)
strncpy dest [] n = if (n + 2 ^ 64 - 1) % 2 ^ 64 == 0 then put 0 dest else none
strncpy dest (c ∷ src) n =
    let n' = (n + 2 ^ 64 - 1) % 2 ^ 64 in
    elim (n' == 0 || c == 0) [
      | true ↦ put 0 dest
      | false ↦ put_before c dest (λ rest. strncpy rest src n')
    ]

-- The loop of `ToString`, with the digits behind `&buffer[i]` and the cells before it.
unfoldable pub decimal_from : ℕ → ℕ → List ℕ → List ℕ
decimal_from zero v buffer = buffer
decimal_from (suc i) zero buffer = buffer
decimal_from (suc i) (suc v) buffer = decimal_from i (suc v / 10) ((48 + suc v % 10) ∷ buffer)

-- `ToString`: 16 cells are enough for 32 bits.
unfoldable pub to_string : ℕ → List ℕ
unfolding decimal_from
to_string zero = 48 ∷ []
to_string (suc v) = decimal_from 16 (suc v) []

-- `String`: `chars` are the `_size` characters of `_data`; a NUL stands behind them.
pub record CppString : Type 0 where
  pub chars : List ℕ
  pub has_hash : Bool
  pub hash : ℕ

-- The constructors.
abbrev pub empty_string : CppString
empty_string = record { chars = []; has_hash = false; hash = 0 }

abbrev pub of_chars : List ℕ → CppString
of_chars cs = record { chars = cs; has_hash = false; hash = 0 }

abbrev pub copy_string : CppString → CppString
copy_string str = str

-- `String(String&& str)`, whose `_hash` is set from `str._has_hash`.
abbrev pub move_string : CppString → CppString
move_string str = record {
  chars = str.chars;
  has_hash = str.has_hash;
  hash = if str.has_hash then 1 else 0;
}

-- `operator=(const String&)`, of another string.
abbrev pub assign_string : CppString → CppString → CppString
assign_string this s = record { chars = s.chars; has_hash = false; hash = this.hash }

-- `operator=(String&&)`, of another string: this one and what is left of the other.
abbrev pub move_assign : CppString → CppString → CppString × CppString
move_assign this s = (s, record s { chars = [] })

abbrev pub string_length : CppString → ℕ
string_length s = length s.chars

-- `operator+` with a string and with a character, `operator[]` and `operator==`.
abbrev pub concat : CppString → CppString → CppString
concat l r = of_chars (l.chars ++ r.chars)

abbrev pub add_char : CppString → ℕ → CppString
add_char l c = of_chars (l.chars ++ c ∷ [])

abbrev pub char_at : CppString → ℕ → ℕ
char_at s idx = get_or s.chars idx 0

abbrev pub equal_chars : List ℕ → List ℕ → Bool
equal_chars [] [] = true
equal_chars [] (y ∷ ys) = false
equal_chars (x ∷ xs) [] = false
equal_chars (x ∷ xs) (y ∷ ys) = let rest = equal_chars xs ys in if x == y then rest else false

abbrev pub equal_strings : CppString → CppString → Bool
equal_strings l r = if length l.chars == length r.chars then equal_chars l.chars r.chars else false

-- A `char` is signed, and is extended to 64 bits.
abbrev pub widen_char : ℕ → ℕ
widen_char c = if ltb c 128 then c else c + (2 ^ 64 - 256)

-- The loop of `compute_hash`.
unfoldable pub hash_from : ℕ → List ℕ → ℕ
hash_from hash [] = hash
hash_from hash (c ∷ cs) = hash_from (bit_xor hash (widen_char c) * 1099511628211 % 2 ^ 64) cs

unfoldable pub compute_hash : CppString → ℕ
unfolding hash_from
compute_hash s = hash_from 14695981039346656037 s.chars

-- `get_hash`: the hash, and the string that keeps it.
unfoldable pub get_hash : CppString → ℕ × CppString
unfolding compute_hash
get_hash s =
    if s.has_hash
    then (s.hash, s)
    else (compute_hash s, record s { hash = compute_hash s; has_hash = true })

-- The loop of `split`, over the characters from `start` on, with the parts so far. A `continue`
-- leaves `start` where it is; the fuel counts the rounds, and `none` is a loop that goes on.
unfoldable pub split_from :
    ℕ → ℕ → Bool → List ℕ → CppString → List CppString → Option (List CppString)
split_from zero delim remove_empty start part r = none
split_from (suc fuel) delim remove_empty [] part r =
    some (if ltb 0 (string_length part) || not remove_empty then r ++ part ∷ [] else r)
split_from (suc fuel) delim remove_empty (c ∷ start) part r = elim (c == delim) [
  | false ↦ split_from fuel delim remove_empty start (add_char part c) r
  | true ↦ elim (string_length part == 0 && remove_empty) [
    | true ↦ split_from fuel delim remove_empty (c ∷ start) part r
    | false ↦ split_from fuel delim remove_empty start empty_string (r ++ part ∷ [])
  ]
]

unfoldable pub split : ℕ → CppString → ℕ → Bool → Option (List CppString)
unfolding split_from
split fuel s delim remove_empty = split_from fuel delim remove_empty s.chars empty_string []
