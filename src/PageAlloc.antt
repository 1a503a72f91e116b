-- ===== src/PageAlloc.antt =====
-- mm/page-allocator.cpp and mm/simple-page-alloc.cpp. The page descriptors are the list of their
-- types; a pointer to a descriptor is its page frame number, and NULL is `none` inside a result.
-- The outer `none` is a failed `assert`, or a read or write outside the descriptors, NULL with them: the
-- model does not say what the memory there holds.
pub mod Search
pub mod Blocks
mod Tests
use infos.Prelude.{
  ℕ, zero, suc, ◌+◌, ◌-◌, ◌*◌, ◌/◌, ◌%◌, ◌^◌, Bool, true, false, Option, none, some, List, [], ◌∷◌,
  ltb, if◌then◌else◌, ◌>>=◌, ◌>>◌, assert, get_elem?, set, length,
}

-- `PageDescriptorType`
pub data PageType : Type 0 where
  invalid reserved available allocated : PageType

abbrev pub is_type : PageType → PageType → Bool
is_type invalid invalid = true
is_type reserved reserved = true
is_type available available = true
is_type allocated allocated = true
is_type _ _ = false

-- How the inner loop of `SimplePageAllocator::allocate_pages` ends: with `found` still true, at the
-- first page that is not available, or past the last descriptor.
pub data Probe : Type 0 where
  all_available : Probe
  taken_at : ℕ → Probe
  beyond : Probe

-- `1u << order`: the machine shifts by the low five bits of `order`.
unfoldable pub block_pages : ℕ → ℕ
block_pages order = 2 ^ (order % 32)

-- `1 << order` as an int that is added to 64 bits: the highest bit is the sign. There are less than 2 ^ 31
-- descriptors, so that adding an index does not wrap.
unfoldable pub searched_pages : ℕ → ℕ
unfolding block_pages
searched_pages order =
    if ltb (block_pages order) (2 ^ 31)
    then block_pages order
    else block_pages order + (2 ^ 64 - 2 ^ 32)

-- The inner loop, from `subidx` on with `n` pages to go.
unfoldable pub probe : List PageType → ℕ → ℕ → Probe
probe pages subidx zero = all_available
probe pages subidx (suc n) =
    let rest = probe pages (subidx + 1) n in
    elim (get_elem? pages subidx) [
      | none ↦ beyond
      | some type ↦ if is_type type available then rest else taken_at subidx
    ]

-- The outer loop, for `nr_pages` pages from `idx` on. Each round passes a page, so the number of
-- descriptors bounds the rounds.
unfoldable pub search_from : ℕ → List PageType → ℕ → ℕ → Option (Option ℕ)
unfolding probe
search_from zero pages nr_pages idx = none
search_from (suc fuel) pages nr_pages idx = elim (ltb idx (length pages)) [
  | false ↦ some none
  | true ↦ elim (probe pages idx nr_pages) [
    | all_available ↦ some (some idx)
    | taken_at subidx ↦ search_from fuel pages nr_pages (subidx + 1)
    | beyond ↦ none
  ]
]

-- `SimplePageAllocator::allocate_pages`
unfoldable pub allocate_pages : List PageType → ℕ → Option (Option ℕ)
unfolding search_from searched_pages
allocate_pages pages order = search_from (suc (length pages)) pages (searched_pages order) 0

-- `assert(pgd[i].type == from); pgd[i].type = to;` for `n` pages from `pfn` on.
unfoldable pub retype : PageType → PageType → ℕ → ℕ → List PageType → Option (List PageType)
retype from to zero pfn pages = some pages
retype from to (suc n) pfn pages = do
  type ← get_elem? pages pfn
  assert (is_type type from)
  retype from to n (pfn + 1) (set pages pfn to)

-- `PageAllocator::alloc_pages`. The loop writes through the algorithm's pointer, NULL or not.
unfoldable pub alloc_pages : ℕ → List PageType → Option (Option ℕ × List PageType)
unfolding allocate_pages block_pages retype
alloc_pages order pages = do
  answer ← allocate_pages pages order
  pfn ← answer
  pages' ← retype available allocated (block_pages order) pfn pages
  some (some pfn, pages')

-- The asserts of `SimplePageAllocator::free_pages`.
unfoldable pub check_allocated : ℕ → ℕ → List PageType → Option (Unit {0})
check_allocated zero pfn pages = some tt
check_allocated (suc n) pfn pages = do
  type ← get_elem? pages pfn
  assert (is_type type allocated)
  check_allocated n (pfn + 1) pages

-- `PageAllocator::free_pages`
unfoldable pub free_pages : ℕ → ℕ → List PageType → Option (List PageType)
unfolding check_allocated block_pages retype
free_pages pfn order pages = do
  check_allocated (block_pages order) pfn pages
  retype allocated available (block_pages order) pfn pages

-- The loops of `reserve_page_range` and `init` that set the types of a range of pages.
unfoldable pub fill : PageType → ℕ → ℕ → List PageType → Option (List PageType)
fill to zero pfn pages = some pages
fill to (suc n) pfn pages = do _ ← get_elem? pages pfn; fill to n (pfn + 1) (set pages pfn to)

-- `PageAllocator::reserve_page_range`, with the algorithm's `remove_page_range`, which only logs.
unfoldable pub reserve_page_range : ℕ → ℕ → List PageType → Option (ℕ × List PageType)
unfolding fill
reserve_page_range start nr_pages pages = do
  pages' ← fill reserved nr_pages start pages
  some (nr_pages, pages')
