-- ===== src/Memory.antt =====
-- mm/mm.cpp, and the initialisation of mm/page-allocator.cpp over the simple algorithm: from the blocks
-- of physical memory to the page descriptors. `none` is an access outside of the descriptors.
pub mod Fill
pub mod Blocks
pub mod Init
mod Tests
use infos.Prelude.{
  ℕ, zero, suc, ◌+◌, ◌*◌, ◌-◌, ◌/◌, ◌%◌, ◌^◌, Bool, true, false, Option, none, some, List, [], ◌∷◌,
  ◌++◌, ◌&&◌, ltb, leb, ◌==◌, if◌then◌else◌, ◌>>=◌, length, replicate,
}
use infos.PageAlloc.{PageType, invalid, reserved, available, fill, reserve_page_range}
use infos.Strings.{strncmp}

-- `PhysicalMemoryBlock`; `normal` tells the two memory types apart.
pub record PhysicalMemoryBlock : Type 0 where
  pub base_address : ℕ
  pub base_pfn : ℕ
  pub nr_pages : ℕ
  pub normal : Bool

-- `_nr_phys_mem_blocks` is the length of the list.
pub record MemoryManager : Type 0 where
  pub last_pfn : ℕ
  pub blocks : List PhysicalMemoryBlock

abbrev pub new_manager : MemoryManager
new_manager = record { last_pfn = 0; blocks = [] }

-- The size of a block in bytes: both factors are unsigned int.
unfoldable pub block_size : ℕ → ℕ
block_size nr_pages = nr_pages * 4096 % 2 ^ 32

-- `((addr + size) >> 12) - 1` in 64 bits.
unfoldable pub last_pfn_of : ℕ → ℕ → ℕ
unfolding block_size
last_pfn_of addr nr_pages = ((addr + block_size nr_pages) % 2 ^ 64 / 4096 + (2 ^ 64 - 1)) % 2 ^ 64

-- `add_physical_memory`
unfoldable pub add_physical_memory : ℕ → ℕ → Bool → MemoryManager → MemoryManager
unfolding last_pfn_of
add_physical_memory addr nr_pages normal mm =
    if nr_pages == 0 then mm else if leb 16 (length mm.blocks) then mm else record {
      last_pfn =
          if normal && ltb mm.last_pfn (last_pfn_of addr nr_pages)
          then last_pfn_of addr nr_pages
          else mm.last_pfn;
      blocks =
          mm.blocks
          ++ record {
            base_address = addr;
            base_pfn = addr / 4096;
            nr_pages = nr_pages;
            normal = normal;
          }
            ∷ [];
    }

-- `lookup_phys_block`
unfoldable pub lookup_phys_block : ℕ → List PhysicalMemoryBlock → Option PhysicalMemoryBlock
unfolding block_size
lookup_phys_block addr [] = none
lookup_phys_block addr (block ∷ rest) =
    if leb block.base_address addr
      && ltb addr ((block.base_address + block_size block.nr_pages) % 2 ^ 64)
    then some block
    else lookup_phys_block addr rest

-- `setup_page_descriptors`, with the physical address of the heap; NULL stands for false.
unfoldable pub setup_page_descriptors : ℕ → MemoryManager → Option (List PageType)
unfolding lookup_phys_block
setup_page_descriptors heap mm = elim (lookup_phys_block heap mm.blocks) [
  | none ↦ none
  | some block ↦ some (replicate ((mm.last_pfn + 1) % 2 ^ 64) invalid)
]

-- The loop of `init` over the blocks.
unfoldable pub mark_blocks : List PhysicalMemoryBlock → List PageType → Option (List PageType)
mark_blocks [] pages = some pages
mark_blocks (block ∷ rest) pages =
    (if block.normal then fill available block.nr_pages block.base_pfn pages else some pages)
    >>= λ pages'. mark_blocks rest pages'

-- How many descriptors the image and the heap take: a descriptor has 32 bytes.
abbrev pub reserved_pages : ℕ → ℕ
reserved_pages nr_pages = nr_pages * 32 % 2 ^ 64 / 4096 + 1

-- The rest of `init`: page zero, the first page tables, and the kernel's image and heap.
unfoldable pub reserve_kernel : ℕ → List PageType → Option (List PageType)
unfolding reserve_page_range
reserve_kernel image_start_pfn pages = do
  (_, pages1) ← reserve_page_range 0 1 pages
  (_, pages2) ← reserve_page_range 1 6 pages1
  (_, pages3) ← reserve_page_range image_start_pfn (reserved_pages (length pages)) pages2
  some pages3

-- `PageAllocator::init`: the descriptors, or NULL for false.
unfoldable pub init : ℕ → ℕ → MemoryManager → Option (Option (List PageType))
unfolding setup_page_descriptors mark_blocks reserve_kernel
init heap image_start_pfn mm = elim (setup_page_descriptors heap mm) [
  | none ↦ some none
  | some pages ↦ do
    marked ← mark_blocks mm.blocks pages
    ready ← reserve_kernel image_start_pfn marked
    some (some ready)
]

-- `acquire_page_allocator_algorithm`: the last algorithm of the chosen name, among names of algorithms.
unfoldable pub find_algorithm : List ℕ → List (List ℕ) → ℕ → Option ℕ → Option (Option ℕ)
find_algorithm chosen [] i candidate = some candidate
find_algorithm chosen (name ∷ rest) i candidate = do
  differs ← strncmp (name ++ 0 ∷ []) (chosen ++ 0 ∷ []) 31
  find_algorithm chosen rest (i + 1) (if differs then candidate else some i)

unfoldable pub acquire_page_allocator_algorithm : List ℕ → List (List ℕ) → Option (Option ℕ)
unfolding find_algorithm
acquire_page_allocator_algorithm chosen names = elim chosen [
  | [] ↦ some none
  | c ∷ rest ↦ find_algorithm (c ∷ rest) names 0 none
]
