-- ===== src/Memory/Fill.antt =====
-- Setting the types of a range of pages.
use infos.Prelude.{
  ℕ, zero, suc, ◌+◌, ◌≤◌, ◌≡◌, refl, ◌∙◌, Bool, some, List, ◌&&◌, ltb, leb, if◌then◌else◌, length,
  length-set, get_elem?, get_elem?_of_lt, get_elem?-set, set, arith,
}
use infos.PageAlloc.{PageType, fill}

abbrev pub is_in : ℕ → ℕ → ℕ → Bool
is_in start n i = leb start i && ltb i (start + n)

-- `fill` within the descriptors sets the pages of its range and no other.
pub fill_lem :
    (to : PageType) (n start : ℕ) (pages : List PageType)
    → start + n ≤ length pages
    → (pages' : List PageType) × (fill to n start pages ≡ some pages')
      × (length pages' ≡ length pages)
      × ((i : ℕ) → get_elem? pages' i ≡ (if is_in start n i then some to else get_elem? pages i))
unfolding fill
fill_lem to zero start pages h = (pages, refl, refl, λ i. ground arith)
fill_lem to (suc n) start pages h =
    let (old, there) = get_elem?_of_lt pages start (omega arith) in
    let (pages', ends, size, reads) =
      fill_lem to n (start + 1) (set pages start to) (omega (arith, length-set pages start to)) in
    (
      pages',
      rw there ends,
      size ∙ length-set pages start to,
      λ i. ground (arith, reads i, get_elem?-set pages start i to there),
    )
