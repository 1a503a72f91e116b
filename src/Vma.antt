-- ===== src/Vma.antt =====
-- mm/vma.cpp: the four-level page tables of a process. Memory is a function from the physical
-- address of an 8-byte word to the word; `pa_to_vpa` maps physical memory into the kernel, so a
-- pointer into a table is the physical address behind it. The page allocator is that of PageAlloc.
-- `none` is a failed `assert` or a call of the page allocator that does not return.
pub mod Entry
pub mod Tables
pub mod Ensure
pub mod Walks
pub mod Insert
pub mod Returns
pub mod Laws
pub mod Range
mod Tests
use infos.Prelude.{
  ℕ, zero, suc, ◌+◌, ◌-◌, ◌*◌, ◌/◌, ◌%◌, ◌^◌, Bool, true, false, ◌&&◌, Option, none, some, List, [],
  ◌∷◌, ltb, leb, ◌==◌, if◌then◌else◌, ◌>>=◌, ◌>>◌, assert,
}
use infos.PageAlloc
use infos.PageAlloc.{PageType}
use Entry.{base_address, set_base_address, present, set_present, set_writable, set_user}

-- `pa_to_vpa`'s bound, PMEM_VA_SIZE.
abbrev pub pmem_size : ℕ
pmem_size = 2 ^ 32

-- The memory, the page descriptors, and the blocks that a VMA took.
pub record Memory : Type 0 where
  pub words : ℕ → ℕ
  pub pages : List PageType
  pub allocations : List (ℕ × ℕ)

abbrev pub store : (ℕ → ℕ) → ℕ → ℕ → ℕ → ℕ
store words a v b = if a == b then v else words b

-- `pnzero` over a block of pages.
abbrev pub zeroed : (ℕ → ℕ) → ℕ → ℕ → ℕ → ℕ
zeroed words pa size b = if leb pa b && ltb b (pa + size) then 0 else words b

-- The allocator's side of `allocate_phys`: NULL goes back as it is.
record_block : ℕ → Option ℕ → List PageType → Memory → Option ℕ × Memory
record_block order none pages s = (none, record s { pages = pages })
record_block order (some pfn) pages s = (
  some pfn,
  record {
    words = zeroed s.words (pfn * 4096) (PageAlloc.searched_pages order * 4096);
    pages = pages;
    allocations = (pfn, order) ∷ s.allocations;
  },
)

-- `VMA::allocate_phys`
unfoldable pub allocate_phys : ℕ → Memory → Option (Option ℕ × Memory)
unfolding record_block
allocate_phys order s = do
  (answer, pages) ← PageAlloc.alloc_pages order s.pages
  some (record_block order answer pages s)

-- `VMA::VMA`: the frame of an empty top-level table.
unfoldable pub new_table : Memory → Option (ℕ × Memory)
unfolding allocate_phys
new_table s = do (answer, s') ← allocate_phys 0 s; pfn ← answer; some (pfn * 4096, s')

-- `install_default_kernel_mapping`: two entries of the boot's top-level table, `__template_pml4`.
unfoldable pub install_default_kernel_mapping : (ℕ → ℕ) → ℕ → Memory → Memory
install_default_kernel_mapping template pgt s = record s {
  words = store (store s.words (pgt + 8 * 511) (template 511)) (pgt + 8 * 256) (template 256);
}

-- One level of `insert_mapping`: the table behind an entry, allocated if there is none.
unfoldable pub ensure_table : ℕ → Memory → Option (ℕ × Memory)
unfolding new_table
ensure_table entry s =
    if base_address (s.words entry) == 0
    then (do
      (table, s') ← new_table s
      let word = set_user (set_writable (set_present (set_base_address (s'.words entry) table)))
      some (base_address word, record s' { words = store s'.words entry word }))
    else some (base_address (s.words entry), s)

-- `MappingFlags`
pub record MappingFlags : Type 0 where
  pub is_present : Bool
  pub is_user : Bool
  pub is_writable : Bool

abbrev pub leaf_word : MappingFlags → ℕ → ℕ → ℕ
leaf_word flags pa word =
    let based = set_base_address word pa in
    let w₁ = if flags.is_present then set_present based else based in
    let w₂ = if flags.is_writable then set_writable w₁ else w₁ in
    if flags.is_user then set_user w₂ else w₂

-- `va_table_indicies`: pm, pdp, pd, pt.
abbrev pub indices : ℕ → List ℕ
indices va =
    (va / 2 ^ 39 % 512) ∷ (va / 2 ^ 30 % 512) ∷ (va / 2 ^ 21 % 512) ∷ (va / 2 ^ 12 % 512) ∷ []

-- `insert_mapping` from a table on: a level for each index but the last, whose entry is written.
unfoldable pub insert_walk : List ℕ → ℕ → ℕ → MappingFlags → Memory → Option Memory
unfolding ensure_table
insert_walk [] table pa flags s = none
insert_walk (i ∷ []) table pa flags s = do
  assert (ltb table pmem_size)
  let entry = table + 8 * i
  some (record s { words = store s.words entry (leaf_word flags pa (s.words entry)) })
insert_walk (i ∷ j ∷ rest) table pa flags s = do
  assert (ltb table pmem_size)
  (next, s') ← ensure_table (table + 8 * i) s
  insert_walk (j ∷ rest) next pa flags s'

unfoldable pub insert_mapping : ℕ → ℕ → ℕ → MappingFlags → Memory → Option Memory
unfolding insert_walk
insert_mapping pgt va pa flags s = insert_walk (indices va) pgt pa flags s

abbrev pub all_flags : MappingFlags
all_flags = record { is_present = true; is_user = true; is_writable = true }

-- The loop of `allocate_virt`, for `n` more pages.
unfoldable pub map_pages : ℕ → ℕ → ℕ → ℕ → Memory → Option Memory
map_pages zero pgt va pa s = some s
map_pages (suc n) pgt va pa s = do
  s' ← insert_mapping pgt va pa all_flags s
  map_pages n pgt ((va + 4096) % 2 ^ 64) ((pa + 4096) % 2 ^ 64) s'

-- `63 - __builtin_clzll(x)` of an `x` that is not 0; 64 rounds halve any 64-bit number to 0.
unfoldable pub log2_floor : ℕ → ℕ → ℕ
log2_floor zero x = 0
log2_floor (suc fuel) x = let rest = log2_floor fuel (x / 2) in if ltb x 2 then 0 else suc rest

-- `__log2ceil`: one more if a bit below the highest is set.
unfoldable pub log2ceil : ℕ → ℕ
unfolding log2_floor
log2ceil x = if x == 0 then 0 else log2_floor 64 x + (if 2 ^ log2_floor 64 x == x then 0 else 1)

-- An int, given by its 32 bits, in 64 bits.
abbrev sign_extended : ℕ → ℕ
sign_extended n = if ltb n (2 ^ 31) then n else n + (2 ^ 64 - 2 ^ 32)

-- `allocate_virt`: whether it succeeded. `nr_pages` is an int, given by its 32 bits: `__log2ceil` takes it
-- in 64 bits, and the loop compares it with an unsigned int.
unfoldable pub allocate_virt : ℕ → ℕ → ℕ → Memory → Option (Bool × Memory)
unfolding allocate_phys
allocate_virt pgt va nr_pages s = elim (nr_pages == 0) [
  | true ↦ some (false, s)
  | false ↦ do
    (answer, s') ← allocate_phys (log2ceil (sign_extended nr_pages)) s
    elim answer [
      | none ↦ some (false, s')
      | some pfn ↦ do s'' ← map_pages nr_pages pgt va (pfn * 4096) s'; some (true, s'')
    ]
]

-- `get_mapping` from a table on: the frame behind the last entry, if every entry is present.
unfoldable pub get_walk : (ℕ → ℕ) → ℕ → List ℕ → Option (Option ℕ)
get_walk words table [] = none
get_walk words table (i ∷ []) = do
  assert (ltb table pmem_size)
  let word = words (table + 8 * i)
  some (if present word then some (base_address word) else none)
get_walk words table (i ∷ j ∷ rest) =
    let word = words (table + 8 * i) in
    let below = get_walk words (base_address word) (j ∷ rest) in
    assert (ltb table pmem_size) >> (if present word then below else some none)

-- `get_mapping` gives the address with the offset in the page; the frame's low bits are clear.
unfoldable pub get_mapping : ℕ → ℕ → Memory → Option (Option ℕ)
unfolding get_walk
get_mapping pgt va s = do
  answer ← get_walk s.words pgt (indices va)
  some (answer >>= λ frame. some (frame + va % 4096))
