-- ===== src/Memory/Init.antt =====
-- The initialisation of the page allocator: what each page descriptor is.
use infos.Prelude.{
  ℕ, zero, suc, ◌+◌, ◌%◌, ◌^◌, ◌≤◌, ◌<◌, ◌≡◌, refl, sym, ap, ◌∙◌, Bool, true, false, some, List, [],
  ◌∷◌, ◌&&◌, ltb, if◌then◌else◌, length, replicate, length-replicate, get_elem?,
  get_elem?-replicate, Bool-cases, some_inverse, inl, inr, arith,
}
use infos.PageAlloc.{PageType, invalid, reserved, available, reserve_page_range}
use infos.Memory.{
  PhysicalMemoryBlock, MemoryManager, lookup_phys_block, setup_page_descriptors, mark_blocks,
  reserved_pages, reserve_kernel, init,
}
use infos.Vma.{Memory, new_table}
use infos.Vma.Laws.{IsPageTable, no_slot, new_table-IsPageTable}
use infos.Vma.Returns.{count_available, new_table_returns}
use infos.Memory.Blocks.{IsBounded}
use infos.Memory.Fill.{is_in, fill_lem}

-- Whether a page is in a block of normal memory.
abbrev pub is_normal : ℕ → List PhysicalMemoryBlock → Bool
is_normal i [] = false
is_normal i (block ∷ rest) =
    if block.normal && is_in block.base_pfn block.nr_pages i then true else is_normal i rest

mark_blocks_lem :
    (blocks : List PhysicalMemoryBlock) (pages : List PageType)
    → ((i : ℕ) (block : PhysicalMemoryBlock)
        → get_elem? blocks i ≡ some block
        → block.normal ≡ true
        → block.base_pfn + block.nr_pages ≤ length pages)
    → (pages' : List PageType) × (mark_blocks blocks pages ≡ some pages')
      × (length pages' ≡ length pages)
      × ((i : ℕ)
          → get_elem? pages' i ≡ (if is_normal i blocks then some available else get_elem? pages i))
unfolding mark_blocks
mark_blocks_lem [] pages inside = (pages, refl, refl, λ i. refl)
mark_blocks_lem (block ∷ rest) pages inside = elim (Bool-cases block.normal) [
  | inl normal ↦
      let (marked, ends, size, reads) =
        fill_lem available block.nr_pages block.base_pfn pages (inside 0 block refl normal) in
      let (pages', ends', size', reads') =
        mark_blocks_lem rest marked (λ i b e n. omega (arith, size, inside (suc i) b e n)) in
      (
        pages',
        rw (normal, ends) ends',
        size' ∙ size,
        λ i. ground (arith, reads i, reads' i, normal),
      )
  | inr unusable ↦
      let (pages', ends', size', reads') =
        mark_blocks_lem rest pages (λ i b e n. inside (suc i) b e n) in
      (pages', rw unusable ends', size', λ i. ground (arith, reads' i, unusable))
]

-- The pages that are reserved: the first seven and those from the image on.
abbrev pub is_reserved : ℕ → ℕ → ℕ → Bool
is_reserved image_start_pfn nr_pages i =
    if ltb i 7 then true else is_in image_start_pfn (reserved_pages nr_pages) i

reserve_kernel_lem :
    (image_start_pfn : ℕ) (pages : List PageType)
    → 7 ≤ length pages
    → image_start_pfn + reserved_pages (length pages) ≤ length pages
    → (pages' : List PageType) × (reserve_kernel image_start_pfn pages ≡ some pages')
      × (length pages' ≡ length pages)
      × ((i : ℕ)
          → get_elem? pages' i ≡ (
              if is_reserved image_start_pfn (length pages) i
              then some reserved
              else get_elem? pages i))
unfolding reserve_kernel reserve_page_range
reserve_kernel_lem image_start_pfn pages seven image =
    let (pages1, ends1, size1, reads1) = fill_lem reserved 1 0 pages (omega arith) in
    let (pages2, ends2, size2, reads2) = fill_lem reserved 6 1 pages1 (omega (arith, size1)) in
    let (pages3, ends3, size3, reads3) =
      fill_lem reserved (reserved_pages (length pages)) image_start_pfn pages2
        (omega (arith, size1, size2)) in
    (
      pages3,
      rw (ends1, ends2, ends3) refl,
      size3 ∙ size2 ∙ size1,
      λ i. ground (arith, reads1 i, reads2 i, reads3 i),
    )

-- A manager whose descriptors can be set up and whose reserved pages are within them.
pub record IsReady (heap image_start_pfn : ℕ) (mm : MemoryManager) : Type 0 where
  pub bounded : IsBounded mm
  pub heap_block : PhysicalMemoryBlock
  pub holds_heap : lookup_phys_block heap mm.blocks ≡ some heap_block
  pub tables : 6 ≤ mm.last_pfn
  pub image : image_start_pfn + reserved_pages (mm.last_pfn + 1) ≤ mm.last_pfn + 1
  pub small : mm.last_pfn + 1 < 2 ^ 64

-- What page i is after the initialisation.
abbrev pub type_after : ℕ → MemoryManager → ℕ → PageType
type_after image_start_pfn mm i =
    if is_reserved image_start_pfn (mm.last_pfn + 1) i
    then reserved
    else if is_normal i mm.blocks
    then available
    else invalid

setup_page_descriptors_lem :
    (heap image_start_pfn : ℕ) (mm : MemoryManager)
    → IsReady heap image_start_pfn mm
    → setup_page_descriptors heap mm ≡ some (replicate (mm.last_pfn + 1) invalid)
unfolding setup_page_descriptors
setup_page_descriptors_lem heap image_start_pfn mm ready =
    let fits : (mm.last_pfn + 1) % 2 ^ 64 ≡ mm.last_pfn + 1 = omega (arith, ready.small) in
    rw (setup_page_descriptors, ready.holds_heap, fits) refl

pub init_lem :
    (heap image_start_pfn : ℕ) (mm : MemoryManager)
    → IsReady heap image_start_pfn mm
    → (pages : List PageType) × (init heap image_start_pfn mm ≡ some (some pages))
      × (length pages ≡ mm.last_pfn + 1)
      × ((i : ℕ) → i ≤ mm.last_pfn → get_elem? pages i ≡ some (type_after image_start_pfn mm i))
unfolding init
init_lem heap image_start_pfn mm ready =
    let zeroed = replicate (mm.last_pfn + 1) invalid in
    let size0 = length-replicate (mm.last_pfn + 1) invalid in
    let (marked, ends, size, reads) =
      mark_blocks_lem mm.blocks zeroed
        (λ i b e n. omega (arith, size0, ready.bounded.inside i b e n)) in
    let all : length marked ≡ mm.last_pfn + 1 = size ∙ size0 in
    let (pages, ends', size', reads') =
      reserve_kernel_lem image_start_pfn marked (omega (arith, all, ready.tables))
        (rw all (ready.image)) in
    (
      pages,
      rw (init, setup_page_descriptors_lem heap image_start_pfn mm ready, ends, ends') refl,
      size' ∙ all,
      λ i h.
          ground (arith, all, reads i, reads' i, get_elem?-replicate (mm.last_pfn + 1) i invalid),
    )

count_available-available :
    (pages : List PageType) (i : ℕ) → get_elem? pages i ≡ some available → 0 < count_available pages
count_available-available [] i e = cc
count_available-available (t ∷ pages) zero e =
    let same : t ≡ available = some_inverse e in rw same (omega arith)
count_available-available (t ∷ pages) (suc i) e = omega (arith, count_available-available pages i e)

-- On such a manager with at most 2 ^ 20 pages and a page of normal memory that is not reserved, the
-- allocator that `init` starts can serve the first page table: VMA::VMA returns, and its frame is a
-- page table.
pub new_table-init :
    (heap image_start_pfn i : ℕ) (mm : MemoryManager) (pages : List PageType) (s : Memory)
    → IsReady heap image_start_pfn mm
    → mm.last_pfn + 1 ≤ 2 ^ 20
    → i ≤ mm.last_pfn
    → type_after image_start_pfn mm i ≡ available
    → init heap image_start_pfn mm ≡ some (some pages)
    → s.pages ≡ pages
    → (pgt : ℕ) × (s' : Memory) × (new_table s ≡ some (pgt, s')) × IsPageTable no_slot pgt s'
new_table-init heap image_start_pfn i mm pages s ready small within free started over =
    let (pages', ends, size, reads) = init_lem heap image_start_pfn mm ready in
    let same : pages' ≡ s.pages = some_inverse (some_inverse (sym ends ∙ started)) ∙ sym over in
    let read = λ (j : ℕ). ap (λ p. get_elem? p j) (sym same) in
    let (pgt, s', made) =
      new_table_returns s
        (count_available-available s.pages i (read i ∙ reads i within ∙ ap some free)) in
    (
      pgt,
      s',
      made,
      new_table-IsPageTable s s' pgt (read 0 ∙ reads 0 (omega arith))
          (omega (arith, size, ap length same)) made,
    )
