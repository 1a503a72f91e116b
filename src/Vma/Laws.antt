-- ===== src/Vma/Laws.antt =====
-- What `insert_mapping` and `get_mapping` promise together, for a page table that `VMA::VMA` made.
use infos.Prelude.{
  ℕ, ◌+◌, ◌*◌, ◌/◌, ◌%◌, ◌^◌, ◌≤◌, ◌<◌, ◌≡◌, refl, sym, ap, ◌∙◌, inl, inr, Bool, true, false, ◌||◌,
  some, [], ◌∷◌, leb, ◌==◌, if◌then◌else◌, length, get_elem?, get_elem?_of_lt, get_elem?_of_ge,
  lt_of_get_elem?, Bool-cases, arith,
}
use infos.PageAlloc.{reserved, available, allocated}
use infos.Vma.{
  Memory, new_table, zeroed, install_default_kernel_mapping, indices, insert_mapping, get_mapping,
  MappingFlags,
}
use infos.Vma.Entry.{base_address}
use infos.Vma.Tables.{entry_at, is_kernel, IsTree, entry_unique, new_table_inverse}
use infos.Vma.Walks.{AreIndices, is_user}
use infos.Vma.Insert.{Inserted, insert_walk_lem}
use infos.Vma.Returns.{count_available, insert_walk_returns}

-- A page table at `pgt`, with every table below it, but for the slots that the kernel has in it.
abbrev pub IsPageTable : (ℕ → Bool) → ℕ → Memory → Type 0
IsPageTable kernel pgt s =
    (kind : ℕ → ℕ) × (parent : ℕ → ℕ) × IsTree kernel kind parent s × (kind pgt ≡ 4)

-- No slot, and the slots of `install_default_kernel_mapping`.
abbrev pub no_slot : ℕ → Bool
no_slot i = false

abbrev pub is_kernel_slot : ℕ → Bool
is_kernel_slot i = i == 256 || i == 511

-- An address that does not belong to a slot of the kernel.
abbrev pub IsUser : (ℕ → Bool) → ℕ → Type 0
IsUser kernel va = kernel (va / 2 ^ 39 % 512) ≡ false

indices-AreIndices : (va : ℕ) → AreIndices (indices va)
indices-AreIndices va = (omega arith, (omega arith, (omega arith, (omega arith, tt))))

IsUser-is_user :
    (kernel : ℕ → Bool) (va : ℕ) → IsUser kernel va → is_user kernel (indices va) ≡ true
IsUser-is_user kernel va h = ground (arith, h)

mapping-Inserted :
    (kernel : ℕ → Bool) (pgt va pa : ℕ) (flags : MappingFlags) (s s' : Memory)
    → (table : IsPageTable kernel pgt s) → IsUser kernel va
    → flags.is_present ≡ true
    → insert_mapping pgt va pa flags s ≡ some s'
    → Inserted kernel table.0 table.1 s pgt (indices va) pa s'
unfolding insert_mapping
mapping-Inserted kernel pgt va pa flags s s' (kind, parent, tree, top) user is_present e =
    insert_walk_lem kernel kind parent s s' pgt _ _ pa flags tree top (indices-AreIndices va)
      (IsUser-is_user kernel va user) is_present e

-- What an insertion with three available pages does, for the tables that may be missing.
pub insert_mapping_returns :
    (kernel : ℕ → Bool) (pgt va pa : ℕ) (flags : MappingFlags) (s : Memory)
    → IsPageTable kernel pgt s
    → IsUser kernel va
    → flags.is_present ≡ true
    → 3 ≤ count_available s.pages
    → (s' : Memory) × (insert_mapping pgt va pa flags s ≡ some s')
      × IsPageTable kernel pgt s'
      × (get_mapping pgt va s' ≡ some (some (base_address pa + va % 4096)))
      × (count_available s.pages ≤ count_available s'.pages + 3)
unfolding insert_mapping get_mapping
insert_mapping_returns kernel pgt va pa flags s (kind, parent, tree, top) user is_present enough =
    let (s', ends, left) =
      insert_walk_returns kernel kind parent s pgt (va / 2 ^ 39 % 512)
        ((va / 2 ^ 30 % 512) ∷ (va / 2 ^ 21 % 512) ∷ (va / 2 ^ 12 % 512) ∷ []) pa flags tree top
        (indices-AreIndices va) (IsUser-is_user kernel va user) enough in
    let done =
      mapping-Inserted kernel pgt va pa flags s s' (kind, parent, tree, top) user is_present ends in
    let (same, _) = done.extends pgt (omega (arith, top)) in
    (s', ends, (done.kind', done.parent', done.tree, same ∙ top), rw done.here refl, left)

module _ (s s' : Memory) (p : ℕ) (first : get_elem? s.pages 0 ≡ some reserved)
    (small : length s.pages ≤ 2 ^ 20) (free : get_elem? s.pages p ≡ some available)
    (pages : (q : ℕ)
      → get_elem? s'.pages q ≡ (if p == q then some allocated else get_elem? s.pages q))
    (words : s'.words ≡ zeroed s.words (p * 4096) 4096) where
  abbrev root_kind : ℕ → ℕ
  root_kind u = if u == p * 4096 then 4 else 0

  root_cleared : (j : ℕ) → j < 512 → s'.words (entry_at (p * 4096) j) ≡ 0
  root_cleared j hj = rw words (ground arith)

  root_framed :
      (u : ℕ) → 0 < root_kind u → (q : ℕ) × (u ≡ q * 4096) × (get_elem? s'.pages q ≡ some allocated)
  root_framed u h = (p, ground arith, ground (arith, pages p))

  root_bounded : length s'.pages ≤ 2 ^ 20
  root_bounded = elim (Bool-cases (leb (length s'.pages) (2 ^ 20))) [
    | inl e ↦ ground arith
    | inr e ↦
        let (v, at) = get_elem?_of_lt s'.pages (2 ^ 20) (ground arith) in
        let gone = get_elem?_of_ge s.pages (2 ^ 20) small in
        let there = lt_of_get_elem? s.pages p free in absurd (ground (arith, pages (2 ^ 20), small))
  ]

  root-IsPageTable : IsPageTable no_slot (p * 4096) s'
  root-IsPageTable = (
    root_kind,
    (λ u. 0),
    record {
      linked =
          λ u j h hj _. let here : u ≡ p * 4096 = ground arith in inl (rw here (root_cleared j hj));
      levels = λ u. ground arith;
      framed = root_framed;
      first_reserved = ground (arith, pages 0);
      bounded = root_bounded;
    },
    ground arith,
  )

-- `VMA::VMA`, where it returns, makes a page table, if the first page is reserved and the descriptors do not go
-- beyond the mapped physical memory.
pub new_table-IsPageTable :
    (s s' : Memory) (pgt : ℕ)
    → get_elem? s.pages 0 ≡ some reserved
    → length s.pages ≤ 2 ^ 20
    → new_table s ≡ some (pgt, s')
    → IsPageTable no_slot pgt s'
new_table-IsPageTable s s' pgt first small e =
    let (p, at, free, pages, words) = new_table_inverse s s' pgt e in
    rw at (root-IsPageTable s s' p first small free pages words)

not_slot :
    (kind parent : ℕ → ℕ) (pgt u j i : ℕ) (s : Memory)
    → IsTree no_slot kind parent s
    → kind pgt ≡ 4
    → 1 < kind u
    → j < 512
    → i < 512
    → is_kernel_slot i ≡ true
    → is_kernel is_kernel_slot (kind u) j ≡ false
    → (entry_at pgt i == entry_at u j) ≡ false
not_slot kind parent pgt u j i s tree top h hj hi slot user =
    elim (Bool-cases (entry_at pgt i == entry_at u j)) [
      | inr e ↦ e
      | inl e ↦
          let (at, same) =
            entry_unique tree u pgt j i (omega arith) (omega arith) hj hi (ground arith) in
          let level : kind u ≡ 4 = ap kind (sym at) ∙ top in
          let is_slot : is_kernel_slot j ≡ true = ap is_kernel_slot (sym same) ∙ slot in
          absurd (ground (arith, level, is_slot, user))
    ]

-- With the kernel's two links installed, whatever they are, a page table is one but for their slots.
pub install-IsPageTable :
    (template : ℕ → ℕ) (pgt : ℕ) (s : Memory)
    → IsPageTable no_slot pgt s
    → IsPageTable is_kernel_slot pgt (install_default_kernel_mapping template pgt s)
unfolding install_default_kernel_mapping
install-IsPageTable template pgt s (kind, parent, tree, top) = (
  kind,
  parent,
  record {
    linked = λ u j h hj user.
        let first = not_slot kind parent pgt u j 256 s tree top h hj (omega arith) refl user in
        let second = not_slot kind parent pgt u j 511 s tree top h hj (omega arith) refl user in
        rw (first, second) (tree.linked u j h hj (ground arith));
    levels = tree.levels;
    framed = tree.framed;
    first_reserved = tree.first_reserved;
    bounded = tree.bounded;
  },
  top,
)
