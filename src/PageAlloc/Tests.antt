-- ===== src/PageAlloc/Tests.antt =====
-- The page allocator at concrete inputs.
use infos.Prelude.{◌^◌, ◌<◌, ◌≡◌, refl, false, ◌&&◌, some, List, [], ◌∷◌}
use infos.PageAlloc.{
  PageType, reserved, available, allocated, block_pages, searched_pages, allocate_pages,
  alloc_pages, free_pages,
}
use infos.PageAlloc.Search.{Answers, allocate_pages_lem}
use infos.PageAlloc.Blocks.{in_block, free_pages-alloc_pages, alloc_pages_disjoint}

abbrev five : List PageType
five = reserved ∷ available ∷ reserved ∷ available ∷ available ∷ []

abbrev taken : List PageType
taken = reserved ∷ available ∷ reserved ∷ allocated ∷ allocated ∷ []

abbrev full : List PageType
full = reserved ∷ allocated ∷ reserved ∷ allocated ∷ allocated ∷ []

allocate_pages_pair : allocate_pages five 1 ≡ some (some 3)
unfolding allocate_pages
allocate_pages_pair = refl

alloc_pages_pair : alloc_pages 1 five ≡ some (some 3, taken)
unfolding alloc_pages
alloc_pages_pair = refl

alloc_pages_one : alloc_pages 0 taken ≡ some (some 1, full)
unfolding alloc_pages
alloc_pages_one = refl

allocate_pages_lem_example :
    Answers five (searched_pages 1) (allocate_pages five 1) × (1 < 31 → searched_pages 1 ≡ 2 ^ 1)
allocate_pages_lem_example = allocate_pages_lem five 1

free_pages-alloc_pages_example : free_pages 3 1 taken ≡ some five
free_pages-alloc_pages_example = free_pages-alloc_pages 1 3 five taken alloc_pages_pair

alloc_pages_disjoint_example :
    (in_block 3 (block_pages 1) 4 && in_block 1 (block_pages 0) 4) ≡ false
alloc_pages_disjoint_example =
    alloc_pages_disjoint 1 0 3 1 five taken full alloc_pages_pair alloc_pages_one 4
