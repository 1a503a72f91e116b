-- ===== src/Directories/Laws.antt =====
-- Reading a directory to its end lists each child of the node, as often as it stands in its table.
use infos.Prelude.{
  ℕ, zero, suc, ◌+◌, ◌-◌, ◌%◌, ◌^◌, ◌≤◌, ◌<◌, ◌≡◌, refl, sym, ap, ◌∙◌, none, some, List, [], ◌∷◌,
  ◌++◌, ltb, drop, length, map, length-map, append_nil, append_assoc, Bool-cases, inl, inr, arith,
}
use infos.LinkedList
use infos.LinkedList.{LinkedList}
use infos.LinkedList.Laws
use infos.Map.{Map}
use infos.Map.Contents.{inorder}
use infos.Map.Iterator.{weigh}
use infos.Map.Iterator.Loop.{entries_lem}
use infos.Directories.{
  DirectoryEntry, SimpleDirectory, new_directory, read_entry, close, add_entry, list_children,
  open_directory, read_all,
}

-- The entry for a child.
abbrev pub entry_of : (ℕ → List ℕ) → ℕ × ℕ → DirectoryEntry
entry_of name_of (h, child) = record { name = name_of child; size = 0 }

list_children-elems :
    (name_of : ℕ → List ℕ) (all : List (ℕ × ℕ)) (d : SimpleDirectory)
    → Laws.IsCounted d.items
    → ((list_children name_of all d).items.elems ≡ d.items.elems ++ map (entry_of name_of) all)
      × Laws.IsCounted (list_children name_of all d).items
      × ((list_children name_of all d).current_entry ≡ d.current_entry)
unfolding list_children add_entry
list_children-elems name_of [] d c = (sym (append_nil d.items.elems), c, refl)
list_children-elems name_of ((h, child) ∷ rest) d c =
    let e : DirectoryEntry = record { name = name_of child; size = 0 } in
    let (elems, counted, current) =
      list_children-elems name_of rest (add_entry e d) (Laws.append-IsCounted e d.items c) in
    (
      elems
          ∙ ap (λ front. front ++ map (entry_of name_of) rest) (Laws.append-elems e d.items)
          ∙ sym (append_assoc d.items.elems e (map (entry_of name_of) rest)),
      counted,
      current,
    )

drop_end : (n : ℕ) (xs : List DirectoryEntry) → length xs ≤ n → drop n xs ≡ []
drop_end zero [] h = refl
drop_end zero (x ∷ xs) h = absurd (omega arith)
drop_end (suc n) [] h = refl
drop_end (suc n) (x ∷ xs) h = drop_end n xs (omega arith)

advanced : SimpleDirectory → SimpleDirectory
advanced d = record d { current_entry = (d.current_entry + 1) % 2 ^ 32 }

read_entry_more :
    (d : SimpleDirectory) (e : DirectoryEntry)
    → d.current_entry < d.items.count
    → LinkedList.at d.items d.current_entry ≡ some e
    → read_entry d ≡ some (some e, advanced d)
unfolding read_entry advanced
read_entry_more d e h there = ground (arith, there)

read_entry_done :
    (d : SimpleDirectory) → d.items.count ≤ d.current_entry → read_entry d ≡ some (none, d)
unfolding read_entry
read_entry_done d h = ground arith

length-weigh : (all : List (ℕ × ℕ)) → length all ≡ weigh (λ k v. 1) all
length-weigh [] = refl
length-weigh ((k, v) ∷ all) = omega (arith, length-weigh all)

-- Reading from a place on.
read_all_lem :
    (fuel : ℕ) (d : SimpleDirectory)
    → Laws.IsCounted d.items
    → length d.items.elems < 2 ^ 32
    → d.current_entry ≤ length d.items.elems
    → length d.items.elems - d.current_entry < fuel
    → read_all fuel d ≡ some (drop d.current_entry d.items.elems)
unfolding read_all advanced
read_all_lem zero d c small within h = absurd (omega arith)
read_all_lem (suc fuel) d c small within h =
    elim (Bool-cases (ltb d.current_entry (length d.items.elems))) [
      | inl more ↦
          let less : d.current_entry < length d.items.elems = ground (arith, more) in
          let (e, there, rest) = Laws.at-drop d.items d.current_entry less in
          let up : (d.current_entry + 1) % 2 ^ 32 ≡ suc d.current_entry = omega arith in
          let ih = read_all_lem fuel (advanced d) c small (omega arith) (omega arith) in
          rw (read_entry_more d e (omega (arith, c.counted)) there, ih, up, rest) refl
      | inr done ↦
          let past : length d.items.elems ≤ d.current_entry = ground (arith, done) in
          rw
            (
              read_entry_done d (omega (arith, c.counted)),
              drop_end d.current_entry d.items.elems past,
            )
            refl
    ]

-- Opening the directory of a node and reading it to its end gives, with enough fuel and for less than
-- 2 ^ 32 children, an entry for each child of the node's table, as often as it stands there: any
-- weight of keys and children sums up to the same over both.
pub read_all-open_directory :
    (fuel : ℕ) (name_of : ℕ → List ℕ) (children : Map ℕ)
    → weigh (λ k v. 1) (inorder children.root) < 2 ^ 32
    → weigh (λ k v. 1) (inorder children.root) < fuel
    → (d : SimpleDirectory) × (all : List (ℕ × ℕ)) × (open_directory fuel name_of children ≡ some d)
      × (read_all fuel d ≡ some (map (entry_of name_of) all))
      × ((p : ℕ → ℕ → ℕ) → weigh p all ≡ weigh p (inorder children.root))
unfolding open_directory LinkedList.new
read_all-open_directory fuel name_of children small enough =
    let (all, listed, weight) = entries_lem fuel children small enough in
    let d = list_children name_of all new_directory in
    let (elems, counted, current) =
      list_children-elems name_of all new_directory (record { counted = refl }) in
    let size : length d.items.elems ≡ weigh (λ k v. 1) (inorder children.root) =
      ap length elems ∙ length-map all (entry_of name_of) ∙ length-weigh all ∙ weight (λ k v. 1) in
    let reads =
      read_all_lem fuel d counted (omega arith) (omega (arith, current)) (omega (arith, current)) in
    (
      d,
      all,
      rw listed refl,
      reads ∙ ap some (ap (λ n. drop n d.items.elems) current ∙ elems),
      weight,
    )

-- A closed directory has no more entries.
pub read_entry-close : (d : SimpleDirectory) → read_entry (close d) ≡ some (none, close d)
unfolding read_entry close LinkedList.clear
read_entry-close d = ground arith
