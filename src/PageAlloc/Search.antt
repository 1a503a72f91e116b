-- ===== src/PageAlloc/Search.antt =====
-- The simple allocator is first fit: it answers the first run of available pages that is long
-- enough, and NULL only if there is none.
use native.Mathlib.Nat.{pow-suc}
use infos.Prelude.{
  ℕ, zero, suc, ◌+◌, ◌-◌, ◌%◌, ◌^◌, ◌≤◌, ◌<◌, ◌≡◌, ◌≢◌, refl, true, Option, none, some, List, ltb,
  arith, get_elem?, length, Bool-cases, Option-cases, inl, inr, ◌∙◌, ap, lt_of_get_elem?,
  get_elem?_of_lt,
}
use infos.PageAlloc.{
  PageType, available, is_type, Probe, all_available, taken_at, beyond, probe, search_from,
  block_pages, searched_pages, allocate_pages,
}

-- Pages `pfn` up to `pfn + n` are there and of one type.
abbrev pub Run : PageType → List PageType → ℕ → ℕ → Type 0
Run type pages pfn n = (j : ℕ) → pfn ≤ j → j < pfn + n → get_elem? pages j ≡ some type

pub is_type_iff : (a b : PageType) → is_type a b ≡ true → a ≡ b
is_type_iff a b e = ground arith

-- What the inner loop found.
abbrev ProbeMeans : List PageType → ℕ → ℕ → Probe → Type 0
ProbeMeans pages idx n all_available =
    (j : ℕ) → idx ≤ j → j < idx + n → get_elem? pages j ≡ some available
ProbeMeans pages idx n (taken_at s) =
    (idx ≤ s) × (s < idx + n) × (s < length pages) × (get_elem? pages s ≢ some available)
ProbeMeans pages idx n beyond =
    (s : ℕ) × (idx ≤ s)
    × (s < idx + n)
    × (length pages ≤ s)
    × ((j : ℕ) → idx ≤ j → j < s → get_elem? pages j ≡ some available)

probe_extend :
    (pages : List PageType) (idx n : ℕ) (r : Probe)
    → get_elem? pages idx ≡ some available
    → ProbeMeans pages (idx + 1) n r
    → ProbeMeans pages idx (suc n) r
probe_extend pages idx n all_available here rest = λ j lo hi. elim (Bool-cases (ltb idx j)) [
  | inl lt ↦ rest j (ground arith) (omega arith)
  | inr ge ↦ let same : j ≡ idx = ground arith in rw same here
]
probe_extend pages idx n (taken_at s) here (lo, hi, there, taken) =
    (omega arith, omega arith, there, taken)
probe_extend pages idx n beyond here (s, lo, hi, out, run) = (
  s,
  omega arith,
  omega arith,
  out,
  λ j lo' hi'. elim (Bool-cases (ltb idx j)) [
    | inl lt ↦ run j (ground arith) hi'
    | inr ge ↦ let same : j ≡ idx = ground arith in rw same here
  ],
)

get_elem?-none_ge : (pages : List PageType) (i : ℕ) → get_elem? pages i ≡ none → length pages ≤ i
get_elem?-none_ge pages i e = elim (Bool-cases (ltb i (length pages))) [
  | inl lt ↦ let (v, found) = get_elem?_of_lt pages i (ground arith) in absurd (ground arith)
  | inr ge ↦ ground arith
]

probe_lem : (pages : List PageType) (idx n : ℕ) → ProbeMeans pages idx n (probe pages idx n)
unfolding probe
probe_lem pages idx zero = λ j lo hi. absurd (omega arith)
probe_lem pages idx (suc n) = elim (Option-cases (get_elem? pages idx)) [
  | inl out ↦
      rw (out, probe)
        (
          idx,
          omega arith,
          omega arith,
          get_elem?-none_ge pages idx out,
          λ j lo hi. absurd (omega arith),
        )
  | inr (type, found) ↦ elim (Bool-cases (is_type type available)) [
    | inl free ↦
        rw (found, free, probe)
          (probe_extend pages idx n (probe pages (idx + 1) n)
            (found ∙ ap some (is_type_iff type available free)) (probe_lem pages (idx + 1) n))
    | inr taken ↦
        rw (found, taken, probe)
          (omega arith, omega arith, lt_of_get_elem? pages idx found, λ e. ground arith)
  ]
]

-- No run of `n` available pages starts before `idx`.
abbrev pub NoneBefore : List PageType → ℕ → ℕ → Type 0
NoneBefore pages idx n = (q : ℕ) → q < idx → ¬ Run available pages q n

-- What an answer of the search means: the first run, or no run anywhere. The search leaves the
-- descriptors only if there is no run and the last pages are available, but fewer than wanted.
abbrev pub Answers : List PageType → ℕ → Option (Option ℕ) → Type 0
Answers pages n (some (some p)) = Run available pages p n × NoneBefore pages p n
Answers pages n (some none) = (q : ℕ) → ¬ Run available pages q n
Answers pages n none =
    (p : ℕ) × (p < length pages)
    × (length pages < p + n)
    × ((j : ℕ) → p ≤ j → j < length pages → get_elem? pages j ≡ some available)
    × ((q : ℕ) → ¬ Run available pages q n)

Run-in_range :
    (pages : List PageType) (q n : ℕ) → 0 < n → Run available pages q n → q + n ≤ length pages
Run-in_range pages q n pos run =
    omega (arith, lt_of_get_elem? pages (q + n - 1) (run (q + n - 1) (omega arith) (omega arith)))

-- Past a taken page no run can start at or before it.
NoneBefore-taken :
    (pages : List PageType) (idx n s : ℕ)
    → NoneBefore pages idx n
    → s < idx + n
    → get_elem? pages s ≢ some available
    → NoneBefore pages (s + 1) n
NoneBefore-taken pages idx n s before hi taken q lt run = elim (Bool-cases (ltb q idx)) [
  | inl early ↦ before q (ground arith) run
  | inr late ↦ taken (run s (omega arith) (ground arith))
]

-- One round of the outer loop, by what the inner loop found.
round_lem :
    (pages : List PageType) (n idx : ℕ) (next : ℕ → Option (Option ℕ))
    → 0 < n
    → idx < length pages
    → NoneBefore pages idx n
    → ((s : ℕ)
        → idx ≤ s
        → s < length pages
        → NoneBefore pages (s + 1) n
        → Answers pages n (next (s + 1)))
    → (r : Probe) → ProbeMeans pages idx n r
    → Answers pages n
        (elim r [ all_available ↦ some (some idx) | taken_at s ↦ next (s + 1) | beyond ↦ none ])
round_lem pages n idx next pos inside before rest all_available run = (run, before)
round_lem pages n idx next pos inside before rest (taken_at s) (lo, hi, there, taken) =
    rest s lo there (NoneBefore-taken pages idx n s before hi taken)
round_lem pages n idx next pos inside before rest beyond (s, lo, hi, out, run) = (
  idx,
  inside,
  omega arith,
  λ j lo' hi'. run j lo' (omega arith),
  λ q all. elim (Bool-cases (ltb q idx)) [
    | inl early ↦ before q (ground arith) all
    | inr late ↦ absurd (ground (arith, Run-in_range pages q n pos all))
  ],
)

search_from_lem :
    (fuel : ℕ) (pages : List PageType) (n idx : ℕ)
    → 0 < n
    → length pages < fuel + idx
    → idx ≤ length pages
    → NoneBefore pages idx n
    → Answers pages n (search_from fuel pages n idx)
unfolding search_from
search_from_lem zero pages n idx pos few low before = absurd (omega arith)
search_from_lem (suc fuel) pages n idx pos few low before =
    elim (Bool-cases (ltb idx (length pages))) [
      | inr past ↦
          rw (past, search_from)
            (λ q run. before q (ground (arith, Run-in_range pages q n pos run)) run)
      | inl inside ↦
          rw (inside, search_from)
            (round_lem pages n idx (search_from fuel pages n) pos (ground arith) before
              (λ s lo there before'.
                search_from_lem fuel pages n (s + 1) pos (omega arith) (omega arith) before')
              (probe pages idx n) (probe_lem pages idx n))
    ]

pow_pos : (k : ℕ) → 0 < 2 ^ k
pow_pos zero = omega arith
pow_pos (suc k) = rw pow-suc (omega (arith, pow_pos k))

pow_more : (k n : ℕ) → 2 ^ k ≤ 2 ^ (n + k)
pow_more k zero = let same : zero + k ≡ k = omega arith in rw same (omega arith)
pow_more k (suc n) =
    let same : suc n + k ≡ suc (n + k) = omega arith in
    rw (same, pow-suc) (omega (arith, pow_more k n))

pow_less : (k : ℕ) → k < 31 → 2 ^ k < 2 ^ 31
pow_less k h = let e : 30 - k + k ≡ 30 = omega arith in omega (arith, rw e at (pow_more k (30 - k)))

pub block_pages_pos : (order : ℕ) → 0 < block_pages order
unfolding block_pages
block_pages_pos order = pow_pos (order % 32)

-- A block is no larger than what is searched for.
pub block_pages-searched_pages : (order : ℕ) → block_pages order ≤ searched_pages order
unfolding searched_pages
block_pages-searched_pages order = ground arith

pub block_pages_zero : block_pages 0 ≡ 1
unfolding block_pages
block_pages_zero = refl

pub searched_pages_zero : searched_pages 0 ≡ 1
unfolding searched_pages block_pages
searched_pages_zero = refl

pub searched_pages_small : (order : ℕ) → order < 31 → searched_pages order ≡ 2 ^ order
unfolding searched_pages block_pages
searched_pages_small order h =
    let same : order % 32 ≡ order = omega arith in
    let less : ltb (2 ^ order) (2 ^ 31) ≡ true = ground (arith, pow_less order h) in
    rw (searched_pages, block_pages, same, less) refl

-- The simple algorithm answers the first run of the available pages that it searches for, which are
-- 2 ^ order below order 31, or NULL where there is none; it reads past the last descriptor only where
-- there is no such run, and the descriptors end in available pages that are too few.
pub allocate_pages_lem :
    (pages : List PageType) (order : ℕ)
    → Answers pages (searched_pages order) (allocate_pages pages order)
      × (order < 31 → searched_pages order ≡ 2 ^ order)
unfolding allocate_pages
allocate_pages_lem pages order = (
  search_from_lem (suc (length pages)) pages (searched_pages order) 0
      (omega (arith, block_pages_pos order, block_pages-searched_pages order)) (omega arith)
      (omega arith) (λ q lt. absurd (omega arith)),
  searched_pages_small order,
)
