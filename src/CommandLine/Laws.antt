-- ===== src/CommandLine/Laws.antt =====
-- `parse` as a run over the words of the command line, and `process` as a look-up of the key.
use infos.Prelude.{
  ℕ, zero, suc, ◌≤◌, ◌<◌, ◌≡◌, refl, sym, ap, ◌∙◌, Bool, true, false, Option, none, some, List, [],
  ◌∷◌, ◌++◌, ltb, ◌>>=◌, ◌>>◌, assert, length, arith,
}
use infos.CommandLine.{
  Registration, Call, process, skip_spaces, take_setting, parse_setting, parse_from, parse,
}
use infos.CommandLine.Words.{
  words, drop_empty, words-skip_spaces, words-take_setting, nothing_left, a_character_less,
}

-- The words one after the other, each in the 128 cells of `setting`.
unfoldable pub run : List Registration → List (List ℕ) → List Call → Option (List Call)
run table [] calls = some calls
run table (word ∷ rest) calls =
    assert (ltb (length word) 128) >> process table word >>= λ call. run table rest (calls ++ call)

assert_first :
    (fits : Bool) (made : Option (List Call)) (f g : List Call → Option (List Call))
    → ((call : List Call) → f call ≡ g call)
    → (assert fits >> (made >>= f)) ≡ (assert fits >> made >>= g)
assert_first false made f g h = refl
assert_first true none f g h = refl
assert_first true (some call) f g h = h call

module _ (table : List Registration) (next : List Call → Option (List Call))
    (rest : List (List ℕ)) where
  parse_setting-run :
      (setting : List ℕ) (calls : List Call)
      → (setting ≡ [] → rest ≡ [])
      → ((made : List Call) → next made ≡ run table rest made)
      → parse_setting table setting next calls ≡ run table (drop_empty (setting ∷ []) ++ rest) calls
  unfolding parse_setting run
  parse_setting-run [] calls ends h = rw (ends refl) refl
  parse_setting-run (c ∷ setting) calls ends h =
      assert_first (ltb (suc (length setting)) 128) (process table (c ∷ setting))
        (λ call. next (calls ++ call)) (λ call. run table rest (calls ++ call))
        (λ call. h (calls ++ call))

-- A round takes a character at least, so that the fuel is enough.
parse_from-run :
    (fuel : ℕ) (table : List Registration) (cmdline : List ℕ) (calls : List Call)
    → length cmdline < fuel
    → parse_from fuel table cmdline calls ≡ run table (words cmdline) calls
unfolding parse_from words run
parse_from-run zero table cmdline calls h = elim h [ ]
parse_from-run (suc fuel) table [] calls h = refl
parse_from-run (suc fuel) table (c ∷ cmdline) calls h =
    let skipped = skip_spaces (c ∷ cmdline) in
    let rest = (take_setting skipped).1 in
    parse_setting-run table (parse_from fuel table rest) (words rest) (take_setting skipped).0 calls
      (λ e. nothing_left (c ∷ cmdline) e)
      (λ made. parse_from-run fuel table rest made (omega (arith, a_character_less c cmdline)))
    ∙ ap (λ ws. run table ws calls)
        (sym (words-take_setting skipped) ∙ words-skip_spaces (c ∷ cmdline))

-- `parse` runs the words of its command line, one after the other, and its fuel is enough: the
-- calls are those of `process` on each word, and there is none exactly if a run of the words has none.
pub parse-run :
    (table : List Registration) (cmdline : List ℕ)
    → parse table cmdline ≡ run table (words cmdline) []
unfolding parse
parse-run table cmdline = parse_from-run (suc (length cmdline)) table cmdline [] (omega arith)

-- A word of 128 characters or more in front of the others, as such a run sees it.
pub run-long :
    (table : List Registration) (word : List ℕ) (rest : List (List ℕ)) (calls : List Call)
    → 128 ≤ length word
    → run table (word ∷ rest) calls ≡ none
unfolding run
run-long table word rest calls h = ground arith
