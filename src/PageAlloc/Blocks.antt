-- ===== src/PageAlloc/Blocks.antt =====
-- Allocating and freeing blocks of pages.
use infos.Prelude.{
  ℕ, zero, suc, ◌+◌, ◌<◌, ◌≡◌, refl, ap, ◌∙◌, Bool, true, false, ◌&&◌, some, List, [], ◌∷◌, ltb,
  leb, if◌then◌else◌, assert, arith, get_elem?, set, get_elem?-set, Bool-cases, inl, inr,
  >>=-eq-some,
}
use infos.PageAlloc.{
  PageType, available, allocated, is_type, allocate_pages, alloc_pages, retype, check_allocated,
  block_pages, searched_pages, free_pages,
}
use infos.PageAlloc.Search.{Run, allocate_pages_lem, block_pages-searched_pages, is_type_iff}

-- Whether page `j` is one of the `n` from `pfn` on.
abbrev pub in_block : ℕ → ℕ → ℕ → Bool
in_block pfn n j = leb pfn j && ltb j (pfn + n)

-- The pages of a block changed to a type, and no other page.
abbrev pub Retyped : PageType → ℕ → ℕ → List PageType → List PageType → Type 0
Retyped to n pfn pages pages' =
    (j : ℕ) → get_elem? pages' j ≡ (if in_block pfn n j then some to else get_elem? pages j)

is_type_refl : (t : PageType) → is_type t t ≡ true
is_type_refl t = ground arith

retype_runs :
    (from to : PageType) (n pfn : ℕ) (pages : List PageType)
    → Run from pages pfn n
    → (pages' : List PageType) × (retype from to n pfn pages ≡ some pages')
      × Retyped to n pfn pages pages'
unfolding retype
retype_runs from to zero pfn pages run = (pages, refl, λ j. ground arith)
retype_runs from to (suc n) pfn pages run =
    let here = run pfn (omega arith) (omega arith) in
    let written = λ (j : ℕ). get_elem?-set pages pfn j to here in
    let (pages', ends, same) =
      retype_runs from to n (pfn + 1) (set pages pfn to)
        (λ j lo hi. ground (arith, written j, run j)) in
    (pages', rw (here, is_type_refl from) ends, λ j. ground (arith, same j, written j))

-- A block whose types could be changed was of the type that is asserted.
retype_checks :
    (from to : PageType) (n pfn : ℕ) (pages pages' : List PageType)
    → retype from to n pfn pages ≡ some pages'
    → Run from pages pfn n
unfolding retype
retype_checks from to zero pfn pages pages' e j lo hi = absurd (omega arith)
retype_checks from to (suc n) pfn pages pages' e j lo hi =
    let (type, found, e₁) = >>=-eq-some (get_elem? pages pfn) _ e in
    let (_, same, e₂) = >>=-eq-some (assert (is_type type from)) _ e₁ in
    elim (Bool-cases (ltb pfn j)) [
      | inl later ↦
          let rest =
            retype_checks from to n (pfn + 1) (set pages pfn to) pages' e₂ j (ground arith)
              (omega arith) in
          ground (arith, rest, get_elem?-set pages pfn j to found)
      | inr first ↦
          let here : j ≡ pfn = ground arith in
          rw here (found ∙ ap some (is_type_iff type from (ground arith)))
    ]

-- The block that `alloc_pages` takes is the one that the algorithm answers: its pages were available
-- and are allocated, and no other page changes.
pub alloc_pages_first_fit :
    (order p : ℕ) (pages : List PageType)
    → allocate_pages pages order ≡ some (some p)
    → (pages' : List PageType) × (alloc_pages order pages ≡ some (some p, pages'))
      × Run available pages p (block_pages order)
      × ((q : ℕ) → q < p → ¬ Run available pages q (searched_pages order))
      × Retyped allocated (block_pages order) p pages pages'
unfolding alloc_pages
alloc_pages_first_fit order p pages e =
    let (all, first) = rw e at (allocate_pages_lem pages order).0 in
    let run : Run available pages p (block_pages order) =
      λ j lo hi. all j lo (omega (arith, block_pages-searched_pages order)) in
    let (pages', ends, same) = retype_runs available allocated (block_pages order) p pages run in
    (pages', rw (e, ends), run, first, same)

-- What a call that returned did.
pub alloc_pages_inverse :
    (order p : ℕ) (pages pages' : List PageType)
    → alloc_pages order pages ≡ some (some p, pages')
    → Run available pages p (block_pages order)
      × Retyped allocated (block_pages order) p pages pages'
unfolding alloc_pages
alloc_pages_inverse order p pages pages' e =
    let (answer, asked, e₁) = >>=-eq-some (allocate_pages pages order) _ e in
    let (q, found, e₂) = >>=-eq-some answer _ e₁ in
    let (pages₁, changed, e₃) =
      >>=-eq-some (retype available allocated (block_pages order) q pages) _ e₂ in
    let at_p : q ≡ p = cc in
    let as_pages : pages₁ ≡ pages' = cc in
    let run = retype_checks available allocated (block_pages order) q pages pages₁ changed in
    let (pages₂, ends, same) = retype_runs available allocated (block_pages order) q pages run in
    let as_pages₂ : pages₂ ≡ pages' = cc (ends) in (rw at_p at run, rw (as_pages₂, at_p) at same)

check_allocated_runs :
    (n pfn : ℕ) (pages : List PageType)
    → Run allocated pages pfn n
    → check_allocated n pfn pages ≡ some tt
unfolding check_allocated
check_allocated_runs zero pfn pages run = refl
check_allocated_runs (suc n) pfn pages run =
    rw (run pfn (omega arith) (omega arith))
      (check_allocated_runs n (pfn + 1) pages (λ j lo hi. run j (omega arith) (omega arith)))

list_ext {ℓ} : {A : Type ℓ} (xs ys : List A) → ((j : ℕ) → get_elem? xs j ≡ get_elem? ys j) → xs ≡ ys
list_ext [] [] h = refl
list_ext [] (y ∷ ys) h = cc (h 0)
list_ext (x ∷ xs) [] h = cc (h 0)
list_ext (x ∷ xs) (y ∷ ys) h = let rest = list_ext xs ys (λ j. h (suc j)) in cc (h 0, rest)

-- On a block of allocated pages `free_pages` ends, makes the block available, and changes no other
-- page.
pub free_pages_lem :
    (order p : ℕ) (pages : List PageType)
    → Run allocated pages p (block_pages order)
    → (pages' : List PageType) × (free_pages p order pages ≡ some pages')
      × Retyped available (block_pages order) p pages pages'
unfolding free_pages
free_pages_lem order p pages run =
    let (pages', ends, same) = retype_runs allocated available (block_pages order) p pages run in
    (pages', rw (check_allocated_runs (block_pages order) p pages run) ends, same)

-- Freeing what was just allocated gives back the descriptors as they were.
pub free_pages-alloc_pages :
    (order p : ℕ) (pages pages' : List PageType)
    → alloc_pages order pages ≡ some (some p, pages')
    → free_pages p order pages' ≡ some pages
free_pages-alloc_pages order p pages pages' e =
    let (run, same) = alloc_pages_inverse order p pages pages' e in
    let taken : Run allocated pages' p (block_pages order) = λ j lo hi. ground (arith, same j) in
    let (pages'', ends, same') = free_pages_lem order p pages' taken in
    let back : pages'' ≡ pages =
      list_ext pages'' pages (λ j. ground (arith, same j, same' j, run j)) in
    ends ∙ ap some back

-- Blocks that are allocated one after the other have no page in common.
pub alloc_pages_disjoint :
    (order order' p q : ℕ) (pages pages' pages'' : List PageType)
    → alloc_pages order pages ≡ some (some p, pages')
    → alloc_pages order' pages' ≡ some (some q, pages'')
    → (j : ℕ) → (in_block p (block_pages order) j && in_block q (block_pages order') j) ≡ false
alloc_pages_disjoint order order' p q pages pages' pages'' e e' j =
    let (run, same) = alloc_pages_inverse order p pages pages' e in
    let (run', same') = alloc_pages_inverse order' q pages' pages'' e' in
    ground (arith, same j, run' j)
