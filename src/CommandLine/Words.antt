-- ===== src/CommandLine/Words.antt =====
-- The settings of a command line, independently of the loops of `parse`: the parts between spaces
-- that are not empty.
use infos.Prelude.{
  parts_of, ℕ, suc, ◌+◌, ◌≤◌, ◌<◌, ◌≡◌, refl, sym, ap, ◌∙◌, List, [], ◌∷◌, ◌++◌, length, arith,
}
use infos.CommandLine.{skip_spaces, take_setting}

abbrev pub drop_empty : List (List ℕ) → List (List ℕ)
drop_empty [] = []
drop_empty ([] ∷ parts) = drop_empty parts
drop_empty ((c ∷ part) ∷ parts) = (c ∷ part) ∷ drop_empty parts

unfoldable pub words : List ℕ → List (List ℕ)
words text = drop_empty (parts_of 32 text)

pub words-skip_spaces : (text : List ℕ) → words (skip_spaces text) ≡ words text
unfolding words skip_spaces
words-skip_spaces [] = refl
words-skip_spaces (c ∷ text) = ground (arith, words-skip_spaces text)

-- What stands before the first space is the first part.
first_part :
    (text : List ℕ)
    → parts_of 32 text
      ≡ (take_setting text).0 ∷ elim (take_setting text).1 as (λ _. List (List ℕ)) [
        | [] ↦ []
        | c ∷ rest ↦ parts_of 32 rest
      ]
unfolding take_setting
first_part [] = refl
first_part (c ∷ text) = ground (arith, first_part text)

-- What follows the first part, seen as words of its own.
rest_words :
    (text : List ℕ)
    → words (take_setting text).1
      ≡ drop_empty (elim (take_setting text).1 as (λ _. List (List ℕ)) [
        | [] ↦ []
        | c ∷ rest ↦ parts_of 32 rest
      ])
unfolding take_setting words
rest_words [] = refl
rest_words (c ∷ text) = ground (arith, rest_words text)

pub words-take_setting :
    (text : List ℕ)
    → words text ≡ drop_empty ((take_setting text).0 ∷ []) ++ words (take_setting text).1
unfolding words
words-take_setting text =
    ap drop_empty (first_part text)
    ∙ split (take_setting text).0 _
    ∙ ap (λ ws. drop_empty ((take_setting text).0 ∷ []) ++ ws) (sym (rest_words text))
  where
    split :
        (w : List ℕ) (ps : List (List ℕ))
        → drop_empty (w ∷ ps) ≡ drop_empty (w ∷ []) ++ drop_empty ps
    split [] ps = refl
    split (c ∷ w) ps = refl

length-take_setting :
    (text : List ℕ) → length (take_setting text).0 + length (take_setting text).1 ≡ length text
unfolding take_setting
length-take_setting [] = refl
length-take_setting (c ∷ text) = ground (arith, length-take_setting text)

length-skip_spaces : (text : List ℕ) → length (skip_spaces text) ≤ length text
unfolding skip_spaces
length-skip_spaces [] = omega arith
length-skip_spaces (c ∷ text) = ground (arith, length-skip_spaces text)

-- Behind the spaces an empty setting is the end.
skip_spaces_end : (text : List ℕ) → (take_setting (skip_spaces text)).0 ≡ [] → skip_spaces text ≡ []
unfolding skip_spaces take_setting
skip_spaces_end [] e = refl
skip_spaces_end (c ∷ text) e = ground (arith, skip_spaces_end text)

pub nothing_left :
    (text : List ℕ)
    → (take_setting (skip_spaces text)).0 ≡ []
    → words (take_setting (skip_spaces text)).1 ≡ []
unfolding words take_setting
nothing_left text e = rw (skip_spaces_end text e) refl

less_behind :
    (setting rest left : List ℕ) (n : ℕ)
    → length setting + length rest ≡ length left
    → length left ≤ suc n
    → (setting ≡ [] → left ≡ [])
    → length rest < suc n
less_behind [] rest left n e h ends = omega (arith, ap length (ends refl))
less_behind (x ∷ setting) rest left n e h ends = omega arith

-- A round leaves less than it was given.
pub a_character_less :
    (c : ℕ) (text : List ℕ) → length (take_setting (skip_spaces (c ∷ text))).1 < suc (length text)
a_character_less c text =
    let left = skip_spaces (c ∷ text) in
    less_behind (take_setting left).0 (take_setting left).1 left (length text)
      (length-take_setting left) (length-skip_spaces (c ∷ text)) (skip_spaces_end (c ∷ text))
