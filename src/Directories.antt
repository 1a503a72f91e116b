-- ===== src/Directories.antt =====
-- fs/directory.cpp and the directories of fs/tmpfs.cpp and fs/devfs.cpp, which list the children of a node.
-- A name is a list of characters. `none` is a failed assertion.
pub mod Laws
mod Tests
use infos.Prelude.{
  ℕ, zero, suc, ◌+◌, ◌%◌, ◌^◌, Bool, true, false, Option, none, some, List, [], ◌∷◌, ltb, ◌==◌,
  if◌then◌else◌, ◌>>=◌, get_elem?,
}
use infos.LinkedList
use infos.LinkedList.{LinkedList}
use infos.Map.{Map}
use infos.Map.Iterator.{entries}

pub record DirectoryEntry : Type 0 where
  pub name : List ℕ
  pub size : ℕ

pub record SimpleDirectory : Type 0 where
  pub items : LinkedList DirectoryEntry
  pub current_entry : ℕ

abbrev pub new_directory : SimpleDirectory
unfolding LinkedList.new
new_directory = record { items = LinkedList.new; current_entry = 0 }

-- `read_entry`: the entry, if it returns true. `_current_entry` is an unsigned int.
unfoldable pub read_entry : SimpleDirectory → Option (Option DirectoryEntry × SimpleDirectory)
read_entry d = elim (ltb d.current_entry d.items.count) [
  | true ↦ do
    entry ← LinkedList.at d.items d.current_entry
    some (some entry, record d { current_entry = (d.current_entry + 1) % 2 ^ 32 })
  | false ↦ some (none, d)
]

unfoldable pub close : SimpleDirectory → SimpleDirectory
close d = record d { items = LinkedList.clear d.items }

unfoldable pub add_entry : DirectoryEntry → SimpleDirectory → SimpleDirectory
add_entry e d = record d { items = LinkedList.append e d.items }

-- The loops of `TempFSDirectory` and `DeviceFSDirectory` over the entries of a table; the function gives
-- the names of the children.
unfoldable pub list_children : (ℕ → List ℕ) → List (ℕ × ℕ) → SimpleDirectory → SimpleDirectory
unfolding add_entry
list_children name_of [] d = d
list_children name_of ((h, child) ∷ rest) d =
    list_children name_of rest (add_entry (record { name = name_of child; size = 0 }) d)

unfoldable pub open_directory : ℕ → (ℕ → List ℕ) → Map ℕ → Option SimpleDirectory
unfolding list_children
open_directory fuel name_of children = do
  all ← entries fuel children
  some (list_children name_of all new_directory)

-- A caller that reads until it gets false; the fuel counts its calls.
unfoldable pub read_all : ℕ → SimpleDirectory → Option (List DirectoryEntry)
unfolding read_entry
read_all zero d = none
read_all (suc fuel) d = do
  (entry, d') ← read_entry d
  elim entry [ none ↦ some [] | some e ↦ read_all fuel d' >>= λ rest. some (e ∷ rest) ]
