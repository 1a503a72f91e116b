-- ===== src/Strings/Split.antt =====
-- `String::split`.
use infos.Prelude.{
  ℕ, zero, suc, ◌<◌, ◌≡◌, refl, sym, ◌∙◌, true, false, none, some, List, [], ◌∷◌, ◌++◌, ◌==◌,
  length, tally, tally-append, append_nil, append_assoc, Bool-cases, inl, inr, arith,
}
use infos.Strings.{CppString, empty_string, of_chars, add_char, split_from, split}

-- The parts with the delimiter between them.
abbrev pub join : ℕ → List CppString → List ℕ
join delim [] = []
join delim (p ∷ []) = p.chars
join delim (p ∷ q ∷ rest) = p.chars ++ delim ∷ join delim (q ∷ rest)

-- No part has the delimiter in it.
abbrev pub AreFree : ℕ → List CppString → Type 0
AreFree delim [] = Unit {0}
AreFree delim (p ∷ rest) = (tally delim p.chars ≡ 0) × AreFree delim rest

-- The parts that come after those in `r`: the text of `part` and the rest.
split_from_lem :
    (fuel delim : ℕ) (start : List ℕ) (part : CppString) (r : List CppString)
    → length start < fuel
    → tally delim part.chars ≡ 0
    → (p : CppString) × (parts : List CppString) × (split_from fuel delim false start part r
        ≡ some (r ++ p ∷ parts))
      × (join delim (p ∷ parts) ≡ part.chars ++ start)
      × AreFree delim (p ∷ parts)
unfolding split_from
split_from_lem zero delim start part r h free = absurd (omega arith)
split_from_lem (suc fuel) delim [] part r h free =
    (part, [], ground arith, sym (append_nil part.chars), (free, tt))
split_from_lem (suc fuel) delim (c ∷ start) part r h free = elim (Bool-cases (c == delim)) [
  | inl e ↦
      let (p, parts, ends, joined, frees) =
        split_from_lem fuel delim start empty_string (r ++ part ∷ []) (omega arith) refl in
      (
        part,
        p ∷ parts,
        ground (arith, ends, append_assoc r part (p ∷ parts)),
        ground (arith, joined),
        (free, frees),
      )
  | inr e ↦
      let kept : tally delim (add_char part c).chars ≡ 0 =
        ground (arith, tally-append delim part.chars (c ∷ [])) in
      let (p, parts, ends, joined, frees) =
        split_from_lem fuel delim start (add_char part c) r (omega arith) kept in
      (p, parts, ground (arith, ends), joined ∙ sym (append_assoc part.chars c start), frees)
]

-- Keeping the empty parts, `split` ends after a round for each character and one more: its parts are
-- free of the delimiter and, joined with it, are the string.
pub split_keep :
    (fuel delim : ℕ) (s : CppString)
    → length s.chars < fuel
    → (parts : List CppString) × (split fuel s delim false ≡ some parts)
      × (join delim parts ≡ s.chars)
      × AreFree delim parts
unfolding split
split_keep fuel delim s h =
    let (p, parts, ends, joined, free) = split_from_lem fuel delim s.chars empty_string [] h refl in
    (p ∷ parts, ends, joined, free)

split_from_stays :
    (fuel delim : ℕ) (rest : List ℕ)
    → split_from fuel delim true (delim ∷ rest) empty_string [] ≡ none
unfolding split_from
split_from_stays zero delim rest = refl
split_from_stays (suc fuel) delim rest = ground (arith, split_from_stays fuel delim rest)

-- Dropping the empty parts, `split` never ends on a string that starts with the delimiter.
pub split_drop_diverges :
    (fuel delim : ℕ) (rest : List ℕ) → split fuel (of_chars (delim ∷ rest)) delim true ≡ none
unfolding split
split_drop_diverges fuel delim rest = split_from_stays fuel delim rest
