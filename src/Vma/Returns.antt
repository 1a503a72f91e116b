-- ===== src/Vma/Returns.antt =====
-- `insert_mapping` returns, where enough pages are available for the tables that it may need.
use infos.Prelude.{
  ℕ, zero, suc, ◌+◌, ◌*◌, ◌≤◌, ◌<◌, ◌≡◌, refl, inl, inr, Bool, true, Option, none, some, List, [],
  ◌∷◌, ◌==◌, if◌then◌else◌, length, get_elem?, lt→ltb, Bool-cases, some_inverse, arith,
}
use infos.PageAlloc.{PageType, available, allocated, is_type, allocate_pages}
use infos.PageAlloc.Search.{Run, Answers, searched_pages_zero, allocate_pages_lem}
use infos.PageAlloc.Blocks.{alloc_pages_first_fit}
use infos.Vma.{
  Memory, pmem_size, store, leaf_word, record_block, allocate_phys, new_table, ensure_table,
  insert_walk, MappingFlags,
}
use infos.Vma.Entry.{base_address}
use infos.Vma.Tables.{entry_at, IsTree, table_bound, new_table_inverse}
use infos.Vma.Ensure.{linked_memory, ensure_table_lem}
use infos.Vma.Walks.{AreIndices, is_user, is_user-below, user_slot}

-- How many pages are available.
abbrev pub count_available : List PageType → ℕ
count_available [] = 0
count_available (t ∷ pages) = count_available pages + (if is_type t available then 1 else 0)

find_available :
    (pages : List PageType)
    → 0 < count_available pages
    → (p : ℕ) × (get_elem? pages p ≡ some available)
find_available [] h = absurd (omega arith)
find_available (t ∷ pages) h = elim (Bool-cases (is_type t available)) [
  | inl e ↦ (0, ground arith)
  | inr e ↦ let (p, at) = find_available pages (ground arith) in (suc p, at)
]

same_count :
    (pages pages' : List PageType)
    → ((j : ℕ) → get_elem? pages' j ≡ get_elem? pages j)
    → count_available pages' ≡ count_available pages
same_count [] [] h = refl
same_count [] (t ∷ pages') h = cc (h 0)
same_count (t ∷ pages) [] h = cc (h 0)
same_count (t ∷ pages) (u ∷ pages') h =
    let rest = same_count pages pages' (λ j. h (suc j)) in
    let head : u ≡ t = some_inverse (h 0) in rw (rest, head) refl

taken_count :
    (pages pages' : List PageType) (p : ℕ)
    → get_elem? pages p ≡ some available
    → ((j : ℕ) → get_elem? pages' j ≡ (if p == j then some allocated else get_elem? pages j))
    → count_available pages' + 1 ≡ count_available pages
taken_count [] pages' p e h = cc
taken_count (t ∷ pages) [] zero e h = cc (h 0)
taken_count (t ∷ pages) [] (suc p) e h = absurd (ground (arith, h (suc p)))
taken_count (t ∷ pages) (u ∷ pages') zero e h =
    let rest = same_count pages pages' (λ j. ground (arith, h (suc j))) in
    let head : u ≡ allocated = some_inverse (h 0) in
    let was : t ≡ available = some_inverse e in rw (rest, head, was) (omega arith)
taken_count (t ∷ pages) (u ∷ pages') (suc p) e h =
    let rest = taken_count pages pages' p e (λ j. ground (arith, h (suc j))) in
    let head : u ≡ t = some_inverse {a = u} {b = t} (ground (arith, h 0)) in
    rw head (omega (arith, rest))

-- The search for one page answers one where there is one.
one_found :
    (pages : List PageType)
    → 0 < count_available pages
    → (p : ℕ) × (allocate_pages pages 0 ≡ some (some p))
one_found pages h =
    let (q, at) = find_available pages h in
    go (allocate_pages pages 0) refl (rw searched_pages_zero at ((allocate_pages_lem pages 0).0)) q
      (λ j lo hi. let same : j ≡ q = omega arith in rw same at)
  where
    go :
        (o : Option (Option ℕ))
        → allocate_pages pages 0 ≡ o
        → Answers pages 1 o
        → (q : ℕ) → Run available pages q 1
        → (p : ℕ) × (allocate_pages pages 0 ≡ some (some p))
    go none e (p, _, _, _, no_run) q run = absurd (no_run q run)
    go (some none) e no_run q run = absurd (no_run q run)
    go (some (some p)) e a q run = (p, e)

pub new_table_returns :
    (s : Memory)
    → 0 < count_available s.pages
    → (table : ℕ) × (s' : Memory) × (new_table s ≡ some (table, s'))
unfolding new_table allocate_phys record_block
new_table_returns s h =
    let (p, found) = one_found s.pages h in
    let (pages', ends, _, _, _) = alloc_pages_first_fit 0 p s.pages found in
    (p * 4096, (record_block 0 (some p) pages' s).1, rw ends refl)

ensure_table_returns :
    (entry : ℕ) (s : Memory)
    → 0 < count_available s.pages
    → (next : ℕ) × (s' : Memory) × (ensure_table entry s ≡ some (next, s'))
      × (count_available s.pages ≤ count_available s'.pages + 1)
unfolding ensure_table
ensure_table_returns entry s h = elim (Bool-cases (base_address (s.words entry) == 0)) [
  | inr there ↦ (base_address (s.words entry), s, rw (ensure_table, there) refl, omega arith)
  | inl none_yet ↦
      let (table, s', made) = new_table_returns s h in
      let (p, _, free, pages, _) = new_table_inverse s s' table made in
      (
        (linked_memory entry table s').0,
        (linked_memory entry table s').1,
        rw (ensure_table, none_yet, made) refl,
        omega (arith, taken_count s.pages s'.pages p free pages),
      )
]

-- A walk returns if there is an available page for each table that it may have to make, and takes no
-- more pages than those.
pub insert_walk_returns :
    (kernel : ℕ → Bool) (kind parent : ℕ → ℕ) (s : Memory) (t i : ℕ) (rest : List ℕ) (pa : ℕ)
    (flags : MappingFlags)
    → IsTree kernel kind parent s
    → kind t ≡ suc (length rest)
    → AreIndices (i ∷ rest)
    → is_user kernel (i ∷ rest) ≡ true
    → length rest ≤ count_available s.pages
    → (s' : Memory) × (insert_walk (i ∷ rest) t pa flags s ≡ some s')
      × (count_available s.pages ≤ count_available s'.pages + length rest)
unfolding insert_walk
insert_walk_returns kernel kind parent s t i [] pa flags tree level ok user h =
    let (_, bound) = table_bound tree t (omega arith) in
    let entry = entry_at t i in
    (
      record s { words = store s.words entry (leaf_word flags pa (s.words entry)) },
      rw (lt→ltb t pmem_size bound) refl,
      omega arith,
    )
insert_walk_returns kernel kind parent s t i (j ∷ rest) pa flags tree level (hi, ok) user h =
    let (_, bound) = table_bound tree t (omega arith) in
    let (next, s₁, made, left) = ensure_table_returns (entry_at t i) s (omega arith) in
    let ensured =
      ensure_table_lem kernel kind parent s s₁ t i next tree (omega arith) hi
        (user_slot kernel (kind t) i (j ∷ rest) level user) made in
    let (s', ends, left') =
      insert_walk_returns kernel ensured.kind' ensured.parent' s₁ next j rest pa flags ensured.tree
        (omega (arith, ensured.level)) ok
        (is_user-below kernel j rest (omega (arith, tree.levels t))) (omega arith) in
    (s', rw (lt→ltb t pmem_size bound, made) ends, omega arith)
