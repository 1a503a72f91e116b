-- ===== src/CommandLine/Settings.antt =====
-- `process`: the function that a setting `key=value` reaches.
use infos.Prelude.{
  ℕ, zero, suc, ◌≤◌, ◌≡◌, ◌↔◌, refl, sym, ap, ◌∙◌, Bool, true, false, not, Option, none, some, List,
  [], ◌∷◌, ◌++◌, ◌==◌, if◌then◌else◌, length, take, tally, Bool-cases, Option-cases, inl, inr,
  arith,
}
use infos.Strings.{strncmp, equal_chars}
use infos.Strings.Cells.{strncmp_lem}
use infos.CommandLine.{Registration, call_of, find_registration, take_key, take_value, process}

-- Whether a registration is for a key; one with no text is for none.
abbrev pub is_for : List ℕ → Registration → Bool
is_for key rgn = elim rgn.match [ none ↦ false | some match ↦ equal_chars match key ]

-- The first registration for a key.
abbrev pub first_for : List ℕ → List Registration → Option Registration
first_for key [] = none
first_for key (rgn ∷ rest) = if is_for key rgn then some rgn else first_for key rest

-- No text of the table has a NUL inside.
abbrev pub AreTexts : List Registration → Type 0
AreTexts [] = Unit {0}
AreTexts (rgn ∷ rest) =
    (elim rgn.match as (λ _. Type 0) [ none ↦ Unit {0} | some match ↦ tally 0 match ≡ 0 ])
    × AreTexts rest

equal_chars_iff : (xs ys : List ℕ) → (equal_chars xs ys ≡ true) ↔ (xs ≡ ys)
equal_chars_iff [] [] = ((λ _. refl), λ _. refl)
equal_chars_iff [] (y ∷ ys) = ((λ e. cc), λ e. cc)
equal_chars_iff (x ∷ xs) [] = ((λ e. cc), λ e. cc)
equal_chars_iff (x ∷ xs) (y ∷ ys) =
    let rest = equal_chars_iff xs ys in
    elim (Bool-cases (x == y)) [
      | inl same ↦ (
        (λ e. ground (arith, rest.0 (ground (arith, e)))),
        λ e. ground (arith, rest.1 (ground (arith, e))),
      )
      | inr differ ↦ ((λ e. ground (arith, e)), λ e. ground (arith, e))
    ]

take_all : (n : ℕ) (xs : List ℕ) → length xs ≤ n → take n xs ≡ xs
take_all zero [] h = refl
take_all zero (x ∷ xs) h = absurd (omega arith)
take_all (suc n) [] h = refl
take_all (suc n) (x ∷ xs) h = ap (λ rest. x ∷ rest) (take_all n xs (omega arith))

-- On a short key `strncmp` is the comparison of the texts.
strncmp-equal_chars :
    (match key : List ℕ)
    → tally 0 match ≡ 0
    → tally 0 key ≡ 0
    → length key ≤ 256
    → strncmp (match ++ 0 ∷ []) (key ++ 0 ∷ []) 256 ≡ some (not (equal_chars match key))
strncmp-equal_chars match key fm fk h =
    let (differs, ends, iff) = strncmp_lem match key [] [] 256 fm fk in
    let same = equal_chars_iff match key in
    ends
    ∙ ap some (
        opposite differs (equal_chars match key) (λ e. same.1 (whole (iff.0 e)))
          (λ e. iff.1 (rw (same.0 e) (refl, refl))))
  where
    whole : (length match ≡ length key) × (take 256 match ≡ take 256 key) → match ≡ key
    whole p = sym (take_all 256 match (omega (arith, p.0))) ∙ p.1 ∙ take_all 256 key h

    opposite : (a b : Bool) → (a ≡ false → b ≡ true) → (b ≡ true → a ≡ false) → a ≡ not b
    opposite true true f g = g refl
    opposite true false f g = refl
    opposite false true f g = refl
    opposite false false f g = f refl

compared :
    (rgn : Registration) (equal : Bool) {further : Option (Option Registration)}
    {later : Option Registration}
    → further ≡ some later
    → (if (not equal) then further else some (some rgn)) ≡ some (if equal then some rgn else later)
compared rgn true h = refl
compared rgn false h = h

find_registration_lem :
    (table : List Registration) (key : List ℕ)
    → AreTexts table
    → tally 0 key ≡ 0
    → length key ≤ 256
    → find_registration table key ≡ some (first_for key table)
unfolding find_registration
find_registration_lem [] key t f h = refl
find_registration_lem (rgn ∷ rest) key t f h =
    let further = find_registration_lem rest key t.1 f h in
    elim (Option-cases rgn.match) [
      | inl absent ↦
          let never : is_for key rgn ≡ false = ground (arith, absent) in
          simp (absent, never) further
      | inr (match, present) ↦
          let equal = strncmp-equal_chars match key (text_of rgn.match present t.0) f h in
          let whether : is_for key rgn ≡ equal_chars match key = ground (arith, present) in
          simp (present, equal, whether) (compared rgn (equal_chars match key) further)
    ]
  where
    text_of :
        (o : Option (List ℕ)) {match : List ℕ}
        → o ≡ some match
        → elim o as (λ _. Type 0) [ none ↦ Unit {0} | some match ↦ tally 0 match ≡ 0 ]
        → tally 0 match ≡ 0
    text_of none e u = cc
    text_of (some m) e u = ground (arith, e, u)

take_key_lem :
    (room : ℕ) (key rest : List ℕ)
    → tally 61 key ≡ 0
    → length key ≤ room
    → take_key room (key ++ 61 ∷ rest) ≡ (key, 61 ∷ rest)
unfolding take_key
take_key_lem zero [] rest f h = refl
take_key_lem (suc room) [] rest f h = refl
take_key_lem zero (c ∷ key) rest f h = absurd (omega arith)
take_key_lem (suc room) (c ∷ key) rest f h =
    let tail = take_key_lem room key rest (ground arith) (omega arith) in ground (arith, tail)

take_value_lem :
    (room : ℕ) (value : List ℕ)
    → tally 61 value ≡ 0
    → length value ≤ room
    → take_value room value ≡ value
unfolding take_value
take_value_lem zero [] f h = refl
take_value_lem (suc room) [] f h = refl
take_value_lem zero (c ∷ value) f h = absurd (omega arith)
take_value_lem (suc room) (c ∷ value) f h =
    let tail = take_value_lem room value (ground arith) (omega arith) in ground (arith, tail)

-- A setting `key=value`, with a key and a value of at most 63 characters and no further '=', in a
-- table of texts with no NUL inside, calls the function of the first registration whose text is the
-- key, with the value, and calls nothing if there is no such registration.
pub process_lem :
    (table : List Registration) (key value : List ℕ)
    → AreTexts table
    → tally 0 key ≡ 0
    → tally 61 key ≡ 0
    → tally 61 value ≡ 0
    → length key ≤ 63
    → length value ≤ 63
    → process table (key ++ 61 ∷ value) ≡ some (call_of (first_for key table) value)
unfolding process
process_lem table key value t f e e' h h' =
    let found = find_registration_lem table key t f (omega arith) in
    let taken : take_value 63 (61 ∷ value) ≡ value = take_value_lem 63 value e' h' in
    rw (take_key_lem 63 key value e h, found, taken) refl
