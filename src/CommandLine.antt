-- ===== src/CommandLine.antt =====
-- util/cmdline.cpp: the settings of the kernel's command line and the functions that take them. The
-- registrations stand in a section that the linker gathers, so they are an argument. A text is the
-- list of its characters before its NUL. `none` is a write behind `setting`.
pub mod Words
pub mod Laws
pub mod Settings
mod Tests
use infos.Prelude.{
  ℕ, zero, suc, ◌+◌, Bool, true, false, Option, none, some, List, [], ◌∷◌, ◌++◌, ltb, ◌==◌,
  if◌then◌else◌, ◌>>=◌, ◌>>◌, assert, length,
}
use infos.Strings.{strncmp}

-- `CommandLineArgumentRegistration`; a function is a number.
pub record Registration : Type 0 where
  pub match : Option (List ℕ)
  pub fn : ℕ

-- A call of a registered function with a value.
pub record Call : Type 0 where
  pub fn : ℕ
  pub value : List ℕ

-- `find_registration`
unfoldable pub find_registration : List Registration → List ℕ → Option (Option Registration)
find_registration [] key = some none
find_registration (rgn ∷ rest) key =
    let further = find_registration rest key in
    elim rgn.match [
      | none ↦ further
      | some match ↦ do
        differs ← strncmp (match ++ 0 ∷ []) (key ++ 0 ∷ []) 256
        if differs then further else some (some rgn)
    ]

-- The first loop of `process`, with room for so many characters: the key and what follows it.
unfoldable pub take_key : ℕ → List ℕ → List ℕ × List ℕ
take_key zero setting = ([], setting)
take_key (suc room) [] = ([], [])
take_key (suc room) (c ∷ setting) =
    let (key, rest) = take_key room setting in
    if c == 61 then ([], c ∷ setting) else (c ∷ key, rest)

-- The second loop, which leaves out every '='.
unfoldable pub take_value : ℕ → List ℕ → List ℕ
take_value zero setting = []
take_value (suc room) [] = []
take_value (suc room) (c ∷ setting) =
    let skipped = take_value (suc room) setting in
    let taken = take_value room setting in if c == 61 then skipped else c ∷ taken

abbrev pub call_of : Option Registration → List ℕ → List Call
call_of none value = []
call_of (some rgn) value = record { fn = rgn.fn; value = value } ∷ []

-- `process`: the call that it makes, if any.
unfoldable pub process : List Registration → List ℕ → Option (List Call)
unfolding find_registration take_key take_value
process table setting = do
  let (key, rest) = take_key 63 setting
  reg ← find_registration table key
  some (call_of reg (take_value 63 rest))

-- The inner loops of `parse`.
unfoldable pub skip_spaces : List ℕ → List ℕ
skip_spaces [] = []
skip_spaces (c ∷ cmdline) = let rest = skip_spaces cmdline in if c == 32 then rest else c ∷ cmdline

unfoldable pub take_setting : List ℕ → List ℕ × List ℕ
take_setting [] = ([], [])
take_setting (c ∷ cmdline) =
    let (setting, rest) = take_setting cmdline in
    if c == 32 then ([], c ∷ cmdline) else (c ∷ setting, rest)

-- What a round does with its setting: `setting` has 128 cells, one of them for the NUL.
unfoldable pub parse_setting :
    List Registration → List ℕ → (List Call → Option (List Call)) → List Call → Option (List Call)
unfolding process
parse_setting table setting next calls = assert (ltb (length setting) 128) >> elim setting [
  | [] ↦ some calls
  | c ∷ word ↦ process table (c ∷ word) >>= λ call. next (calls ++ call)
]

-- The loop of `parse`, with the calls so far. A round takes a character at least.
unfoldable pub parse_from : ℕ → List Registration → List ℕ → List Call → Option (List Call)
unfolding skip_spaces take_setting
parse_from zero table cmdline calls = none
parse_from (suc fuel) table [] calls = some calls
parse_from (suc fuel) table (c ∷ cmdline) calls =
    let (setting, rest) = take_setting (skip_spaces (c ∷ cmdline)) in
    parse_setting table setting (parse_from fuel table rest) calls

unfoldable pub parse : List Registration → List ℕ → Option (List Call)
unfolding parse_from
parse table cmdline = parse_from (suc (length cmdline)) table cmdline []
