-- ===== src/Vma/Tables.antt =====
-- The page tables form a tree: what `ensure_table` keeps of it.
use infos.Prelude.{
  ℕ, ◌+◌, ◌*◌, ◌^◌, ◌≤◌, ◌<◌, ◌≡◌, ◌≢◌, ◌⊎◌, sym, ap, ◌∙◌, inl, inr, Bool, false, ◌&&◌, Option,
  none, some, List, ◌==◌, if◌then◌else◌, get_elem?, length, lt_of_get_elem?, Bool-cases,
  >>=-eq-some, some_inverse, arith,
}
use infos.PageAlloc.{PageType, reserved, available, allocated}
use infos.PageAlloc
use infos.PageAlloc.Blocks.{alloc_pages_inverse}
use infos.Vma.{Memory, pmem_size, zeroed, record_block, allocate_phys, new_table}

abbrev pub entry_at : ℕ → ℕ → ℕ
entry_at t i = t + 8 * i

-- An entry of a table above the last level: empty, or a link to a table one level down that no other
-- entry links to.
abbrev pub IsLink : (ℕ → ℕ) → (ℕ → ℕ) → ℕ → ℕ → ℕ → Type 0
IsLink kind parent t i word =
    (word ≡ 0)
    ⊎ ((q : ℕ) × (word ≡ q * 4096 + 7)
        × (kind (q * 4096) + 1 ≡ kind t)
        × (parent (q * 4096) ≡ entry_at t i))

-- The slots of a top-level table that hold the kernel's own links, which the tree leaves alone.
abbrev pub is_kernel : (ℕ → Bool) → ℕ → ℕ → Bool
is_kernel kernel level i = level == 4 && kernel i

-- `kind` is the level of the table at an address, from 4 down to 1, and 0 where there is none;
-- `parent` is the entry that links to it.
pub record IsTree (kernel : ℕ → Bool) (kind parent : ℕ → ℕ) (s : Memory) : Type 0 where
  pub linked :
      (t i : ℕ)
      → 1 < kind t
      → i < 512
      → is_kernel kernel (kind t) i ≡ false
      → IsLink kind parent t i (s.words (entry_at t i))
  pub levels : (t : ℕ) → kind t ≤ 4
  pub framed :
      (t : ℕ) → 0 < kind t → (p : ℕ) × (t ≡ p * 4096) × (get_elem? s.pages p ≡ some allocated)
  pub first_reserved : get_elem? s.pages 0 ≡ some reserved
  pub bounded : length s.pages ≤ 2 ^ 20

module _ {kernel : ℕ → Bool} {kind parent : ℕ → ℕ} {s : Memory}
    (tree : IsTree kernel kind parent s) where
  -- A table is a page of the mapped physical memory, and not the first one.
  pub table_bound : (t : ℕ) → 0 < kind t → (0 < t) × (t < pmem_size)
  table_bound t h =
      let (p, e, at) = tree.framed t h in
      let bound = lt_of_get_elem? s.pages p at in
      elim (Bool-cases (p == 0)) [
        | inl z ↦
            let first : p ≡ 0 = ground arith in absurd (cc (rw first at at, tree.first_reserved))
        | inr z ↦ (ground arith, omega (arith, tree.bounded))
      ]

  pub entry_unique :
      (t u i j : ℕ)
      → 0 < kind t
      → 0 < kind u
      → i < 512
      → j < 512
      → entry_at u j ≡ entry_at t i
      → (u ≡ t) × (j ≡ i)
  entry_unique t u i j ht hu hi hj e =
      let (p, et, _) = tree.framed t ht in
      let (q, eu, _) = tree.framed u hu in (omega arith, omega arith)

-- What `ensure_table` did at an entry of a table `t`, with the levels and links afterwards.
pub record Ensured (kernel : ℕ → Bool) (kind parent : ℕ → ℕ) (s : Memory) (t i next : ℕ)
    (s' : Memory) : Type 0 where
  pub kind' : ℕ → ℕ
  pub parent' : ℕ → ℕ
  pub tree : IsTree kernel kind' parent' s'
  pub extends : (u : ℕ) → 0 < kind u → (kind' u ≡ kind u) × (parent' u ≡ parent u)
  pub level : kind' next + 1 ≡ kind t
  pub hangs : parent' next ≡ entry_at t i
  pub link : s'.words (entry_at t i) ≡ next + 7
  pub frame :
      (u j : ℕ)
      → 0 < kind u
      → j < 512
      → entry_at u j ≢ entry_at t i
      → s'.words (entry_at u j) ≡ s.words (entry_at u j)
  pub before :
      (s.words (entry_at t i) ≡ next + 7)
      ⊎ ((s.words (entry_at t i) ≡ 0) × ((j : ℕ) → j < 512 → s'.words (entry_at next j) ≡ 0))

record_block_inverse :
    (o : Option ℕ) (pages : List PageType) (s : Memory) (answer : Option ℕ × Memory) (pfn : ℕ)
    → record_block 0 o pages s ≡ answer
    → answer.0 ≡ some pfn
    → (o ≡ some pfn)
      × (answer.1.pages ≡ pages)
      × (answer.1.words ≡ zeroed s.words (pfn * 4096) 4096)
unfolding record_block PageAlloc.searched_pages PageAlloc.block_pages
record_block_inverse none pages s answer pfn e e' = let none_some = ap (λ x. x.0) e ∙ e' in cc
record_block_inverse (some p) pages s answer pfn e e' =
    let same = ap (λ x. x.0) e ∙ e' in
    let at : p ≡ pfn = cc in
    (
      same,
      sym (ap (λ x. x.1.pages) e),
      sym (ap (λ x. x.1.words) e) ∙ ap (λ n. zeroed s.words (n * 4096) 4096) at,
    )

-- A block of order 0 is one page.
alloc_one_inverse :
    (pfn : ℕ) (pages pages' : List PageType)
    → PageAlloc.alloc_pages 0 pages ≡ some (some pfn, pages')
    → (get_elem? pages pfn ≡ some available)
      × ((q : ℕ) → get_elem? pages' q ≡ (if pfn == q then some allocated else get_elem? pages q))
unfolding PageAlloc.block_pages
alloc_one_inverse pfn pages pages' e =
    let (run, same) = alloc_pages_inverse 0 pfn pages pages' e in
    (run pfn (omega arith) (omega arith), λ q. same q ∙ ground arith)

-- The frame of a new table: an available page, now allocated and cleared.
pub new_table_inverse :
    (s s' : Memory) (table : ℕ)
    → new_table s ≡ some (table, s')
    → (p : ℕ) × (table ≡ p * 4096)
      × (get_elem? s.pages p ≡ some available)
      × ((q : ℕ) → get_elem? s'.pages q ≡ (if p == q then some allocated else get_elem? s.pages q))
      × (s'.words ≡ zeroed s.words (p * 4096) 4096)
unfolding new_table allocate_phys
new_table_inverse s s' table e =
    let (answer, e₁, e₂) = >>=-eq-some (allocate_phys 0 s) _ e in
    let (pfn, b₁, b₂) = >>=-eq-some answer.0 _ e₂ in
    let (taken, a₁, a₂) = >>=-eq-some (PageAlloc.alloc_pages 0 s.pages) _ e₁ in
    let (o, pages_are, words_are) =
      record_block_inverse taken.0 taken.1 s answer pfn (some_inverse a₂) b₁ in
    let at_table = ap (λ x. x.0) (some_inverse b₂) in
    let at_memory = ap (λ x. x.1) (some_inverse b₂) in
    let allocates : PageAlloc.alloc_pages 0 s.pages ≡ some (some pfn, taken.1) =
      a₁ ∙ ap (λ x. some (x, taken.1)) o in
    let (free, same) = alloc_one_inverse pfn s.pages taken.1 allocates in
    (
      pfn,
      sym at_table,
      free,
      (λ q.
          ap (λ m. get_elem? m.pages q) (sym at_memory)
          ∙ ap (λ ps. get_elem? ps q) pages_are
          ∙ same q),
      ap (λ m. m.words) (sym at_memory) ∙ words_are,
    )
