-- ===== src/Memory/Blocks.antt =====
-- The last page frame and the blocks of physical memory.
use infos.Prelude.{
  ℕ, ◌+◌, ◌*◌, ◌/◌, ◌^◌, ◌≤◌, ◌<◌, ◌≡◌, ap, ◌∙◌, Bool, true, some, [], ◌∷◌, ◌++◌, ◌&&◌, ltb, leb,
  ◌==◌, if◌then◌else◌, length, length-append_one, get_elem?, get_elem?-append_one, Bool-cases, inl,
  inr, arith,
}
use infos.Memory.{PhysicalMemoryBlock, MemoryManager, block_size, last_pfn_of, add_physical_memory}

-- Every block of normal memory ends at or before the last page frame, and there are at most 16 blocks.
pub record IsBounded (mm : MemoryManager) : Type 0 where
  pub few : length mm.blocks ≤ 16
  pub inside :
      (i : ℕ) (block : PhysicalMemoryBlock)
      → get_elem? mm.blocks i ≡ some block
      → block.normal ≡ true
      → block.base_pfn + block.nr_pages ≤ mm.last_pfn + 1

-- A block of at least one page that ends in the 64-bit address space, not in the first page: the page
-- frame behind its last one is behind it if the block has less than 2 ^ 20 pages, and only then.
pub last_pfn_of_lem :
    (addr nr_pages : ℕ)
    → 4096 ≤ addr
    → 0 < nr_pages
    → nr_pages < 2 ^ 32
    → addr + nr_pages * 4096 < 2 ^ 64
    → (nr_pages < 2 ^ 20 → last_pfn_of addr nr_pages + 1 ≡ addr / 4096 + nr_pages)
      × (2 ^ 20 ≤ nr_pages → last_pfn_of addr nr_pages + 1 < addr / 4096 + nr_pages)
unfolding last_pfn_of block_size
last_pfn_of_lem addr nr_pages above some_pages small within = ((λ h. omega arith), λ h. omega arith)

last_pfn_of_small :
    (addr nr_pages : ℕ)
    → 0 < nr_pages
    → nr_pages < 2 ^ 20
    → addr + nr_pages * 4096 < 2 ^ 64
    → last_pfn_of addr nr_pages + 1 ≡ addr / 4096 + nr_pages
unfolding last_pfn_of block_size
last_pfn_of_small addr nr_pages some_pages small within = omega arith

-- The last page frame and the blocks with one more.
abbrev raised : ℕ → ℕ → Bool → MemoryManager → ℕ
raised addr nr_pages normal mm =
    if normal && ltb mm.last_pfn (last_pfn_of addr nr_pages)
    then last_pfn_of addr nr_pages
    else mm.last_pfn

abbrev added : ℕ → ℕ → Bool → PhysicalMemoryBlock
added addr nr_pages normal = record {
  base_address = addr;
  base_pfn = addr / 4096;
  nr_pages = nr_pages;
  normal = normal;
}

added-IsBounded :
    (addr nr_pages : ℕ) (normal : Bool) (mm : MemoryManager)
    → last_pfn_of addr nr_pages + 1 ≡ addr / 4096 + nr_pages
    → length mm.blocks < 16
    → IsBounded mm
    → IsBounded (record {
      last_pfn = raised addr nr_pages normal mm;
      blocks = mm.blocks ++ added addr nr_pages normal ∷ [];
    })
added-IsBounded addr nr_pages normal mm last room is = record {
  few = omega (arith, length-append_one mm.blocks (added addr nr_pages normal));
  inside = λ i block e is_normal.
      let reads = get_elem?-append_one mm.blocks (added addr nr_pages normal) i in
      elim (Bool-cases (i == length mm.blocks)) [
        | inl new ↦
            let same : added addr nr_pages normal ≡ block = ground (arith, reads, e) in
            let start = ap (λ (b : PhysicalMemoryBlock). b.base_pfn) same in
            let size = ap (λ (b : PhysicalMemoryBlock). b.nr_pages) same in
            ground (
              arith,
              last,
              ap (λ (b : PhysicalMemoryBlock). b.normal) same ∙ is_normal,
              start,
              size,
            )
        | inr old ↦
            let there : get_elem? mm.blocks i ≡ some block = ground (arith, reads, e) in
            ground (arith, is.inside i block there is_normal)
      ];
}

-- Adding a block of less than 4 GiB within the 64-bit address space keeps the manager bounded, and the
-- last page frame does not go down.
pub add_physical_memory-IsBounded :
    (addr nr_pages : ℕ) (normal : Bool) (mm : MemoryManager)
    → nr_pages < 2 ^ 20
    → addr + nr_pages * 4096 < 2 ^ 64
    → IsBounded mm
    → IsBounded (add_physical_memory addr nr_pages normal mm)
      × (mm.last_pfn ≤ (add_physical_memory addr nr_pages normal mm).last_pfn)
unfolding add_physical_memory
add_physical_memory-IsBounded addr nr_pages normal mm small within is =
    elim (Bool-cases (nr_pages == 0)) [
      | inl nothing ↦ rw (nothing, add_physical_memory) (is, omega arith)
      | inr some_pages ↦ elim (Bool-cases (leb 16 (length mm.blocks))) [
        | inl full ↦ rw (some_pages, full, add_physical_memory) (is, omega arith)
        | inr room ↦
            let last = last_pfn_of_small addr nr_pages (ground (arith, some_pages)) small within in
            rw (some_pages, room, add_physical_memory)
              (added-IsBounded addr nr_pages normal mm last (ground (arith, room)) is, ground arith)
      ]
    ]
