-- ===== src/CommandLine/Tests.antt =====
-- The command line at concrete inputs.
use infos.Prelude.{ℕ, ◌≡◌, refl, none, some, List, [], ◌∷◌, ◌++◌, replicate, arith}
use infos.CommandLine.{Registration, call_of, process, parse_setting, parse}
use infos.Strings.{strncmp}
use infos.CommandLine.Words.{words}
use infos.CommandLine.Laws.{run, parse-run}
use infos.CommandLine.Settings.{first_for, process_lem}

-- "a" and "b.c"
abbrev table : List Registration
table =
    record { match = none; fn = 9 }
    ∷ record { match = some (97 ∷ []); fn = 1 }
    ∷ record { match = some (98 ∷ 46 ∷ 99 ∷ []); fn = 2 }
    ∷ []

-- " a=xy  b.c=z"
abbrev line : List ℕ
line = 32 ∷ 97 ∷ 61 ∷ 120 ∷ 121 ∷ 32 ∷ 32 ∷ 98 ∷ 46 ∷ 99 ∷ 61 ∷ 122 ∷ []

parse-line :
    parse table line
    ≡ some (record { fn = 1; value = 120 ∷ 121 ∷ [] } ∷ record { fn = 2; value = 122 ∷ [] } ∷ [])
unfolding parse parse_setting strncmp
parse-line = refl

words-line : words line ≡ (97 ∷ 61 ∷ 120 ∷ 121 ∷ []) ∷ (98 ∷ 46 ∷ 99 ∷ 61 ∷ 122 ∷ []) ∷ []
unfolding words
words-line = refl

-- A word of 128 characters is written behind `setting`.
parse_long : parse table (replicate 128 97) ≡ none
unfolding parse parse_setting
parse_long = refl

parse-run_example : parse table line ≡ run table (words line) []
parse-run_example = parse-run table line

process_lem_example :
    process table ((98 ∷ 46 ∷ 99 ∷ []) ++ 61 ∷ 122 ∷ [])
    ≡ some (call_of (first_for (98 ∷ 46 ∷ 99 ∷ []) table) (122 ∷ []))
process_lem_example =
    process_lem table (98 ∷ 46 ∷ 99 ∷ []) (122 ∷ []) (tt, (refl, (refl, tt))) refl refl refl
      (omega arith) (omega arith)
