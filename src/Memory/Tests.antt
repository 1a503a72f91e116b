-- ===== src/Memory/Tests.antt =====
-- A machine of sixteen pages.
use infos.Prelude.{
  ℕ, zero, suc, ◌+◌, ◌≤◌, ◌≡◌, refl, true, false, some, List, [], ◌∷◌, get_elem?, some_inverse,
  arith,
}
use infos.PageAlloc.{PageType, available, reserved}
use infos.PageAlloc
use infos.Strings.{strncmp}
use infos.Vma.{Memory, new_table}
use infos.Vma.Laws.{IsPageTable, no_slot}
use infos.Memory.{
  PhysicalMemoryBlock, MemoryManager, new_manager, add_physical_memory, lookup_phys_block, init,
  acquire_page_allocator_algorithm,
}
use infos.Memory.Blocks.{IsBounded, add_physical_memory-IsBounded}
use infos.Memory.Init.{IsReady, new_table-init}

abbrev block : PhysicalMemoryBlock
block = record { base_address = 0; base_pfn = 0; nr_pages = 16; normal = true }

abbrev sixteen : MemoryManager
sixteen = record { last_pfn = 15; blocks = block ∷ [] }

sixteen-add : add_physical_memory 0 16 true new_manager ≡ sixteen
unfolding add_physical_memory
sixteen-add = refl

-- Of the algorithms "a", "b" and "b" the last one is chosen by "b".
last_algorithm :
    acquire_page_allocator_algorithm (98 ∷ []) ((97 ∷ []) ∷ (98 ∷ []) ∷ (98 ∷ []) ∷ [])
    ≡ some (some 2)
unfolding acquire_page_allocator_algorithm strncmp
last_algorithm = refl

inside :
    (i : ℕ) (b : PhysicalMemoryBlock)
    → get_elem? sixteen.blocks i ≡ some b
    → b.normal ≡ true
    → b.base_pfn + b.nr_pages ≤ 16
inside zero b e n = let same : block ≡ b = some_inverse e in rw (← same) (omega arith)
inside (suc i) b e n = cc

sixteen-IsBounded : IsBounded sixteen
sixteen-IsBounded = record { few = omega arith; inside = inside }

add_physical_memory-IsBounded_example :
    IsBounded (add_physical_memory 65536 8 false sixteen)
    × (sixteen.last_pfn ≤ (add_physical_memory 65536 8 false sixteen).last_pfn)
add_physical_memory-IsBounded_example =
    add_physical_memory-IsBounded 65536 8 false sixteen (omega arith) (omega arith)
      sixteen-IsBounded

sixteen-IsReady : IsReady 36864 8 sixteen
unfolding lookup_phys_block
sixteen-IsReady = record {
  bounded = sixteen-IsBounded;
  heap_block = block;
  holds_heap = refl;
  tables = omega arith;
  image = omega arith;
  small = omega arith;
}

abbrev descriptors : List PageType
descriptors =
    reserved ∷ reserved ∷ reserved ∷ reserved ∷ reserved ∷ reserved ∷ reserved ∷ available
    ∷ reserved ∷ available ∷ available ∷ available ∷ available ∷ available ∷ available ∷ available
    ∷ []

sixteen-init : init 36864 8 sixteen ≡ some (some descriptors)
unfolding init PageAlloc.reserve_page_range
sixteen-init = refl

abbrev memory : Memory
memory = record { words = λ a. 0; pages = descriptors; allocations = [] }

new_table-init_example :
    (pgt : ℕ) × (s' : Memory) × (new_table memory ≡ some (pgt, s')) × IsPageTable no_slot pgt s'
new_table-init_example =
    new_table-init 36864 8 7 sixteen descriptors memory sixteen-IsReady (omega arith) (omega arith)
      refl sixteen-init refl
