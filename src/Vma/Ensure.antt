-- ===== src/Vma/Ensure.antt =====
-- One level of `insert_mapping`: the table behind an entry, old or new.
use infos.Prelude.{
  ℕ, ◌+◌, ◌-◌, ◌*◌, ◌^◌, ◌≤◌, ◌<◌, ◌≡◌, ◌≢◌, refl, sym, ap, ◌∙◌, inl, inr, Bool, true, false, some,
  ltb, leb, ◌==◌, if◌then◌else◌, get_elem?, get_elem?_of_lt, get_elem?_of_ge, length,
  lt_of_get_elem?, Bool-cases, >>=-eq-some, some_inverse, arith,
}
use infos.PageAlloc.{available, allocated}
use infos.Vma.{Memory, store, zeroed, new_table, ensure_table}
use infos.Vma.Entry.{
  base_address, set_base_address, set_present, set_writable, set_user, table_entry,
}
use infos.Vma.Tables.{
  entry_at, IsLink, is_kernel, IsTree, table_bound, entry_unique, Ensured, new_table_inverse,
}

-- The memory after a new table in page `p` was hung below an entry.
abbrev pub Grown : ℕ → ℕ → Memory → Memory → Type 0
Grown p entry s s' =
    ((q : ℕ) → get_elem? s'.pages q ≡ (if p == q then some allocated else get_elem? s.pages q))
    × ((b : ℕ)
        → s'.words b ≡ (if entry == b then p * 4096 + 7 else zeroed s.words (p * 4096) 4096 b))

-- A function on addresses with one value changed.
abbrev updated : (ℕ → ℕ) → ℕ → ℕ → ℕ → ℕ
updated f a v u = if u == a then v else f u

module _ (kernel : ℕ → Bool) (kind parent : ℕ → ℕ) (s s' : Memory)
    (tree : IsTree kernel kind parent s) (t i p : ℕ) (above : 1 < kind t) (hi : i < 512)
    (free : get_elem? s.pages p ≡ some available) (grown : Grown p (entry_at t i) s s')
    (empty : s.words (entry_at t i) ≡ 0) where
  other_page :
      (u : ℕ)
      → 0 < kind u
      → (r : ℕ) × (u ≡ r * 4096) × (get_elem? s.pages r ≡ some allocated) × (r ≢ p)
  other_page u h = let (r, e, at) = tree.framed u h in (r, e, at, λ z. cc (rw z at at, free))

  old_entry :
      (u j : ℕ)
      → 0 < kind u
      → j < 512
      → entry_at u j ≢ entry_at t i
      → s'.words (entry_at u j) ≡ s.words (entry_at u j)
  old_entry u j h hj n =
      let (r, e, _, ne) = other_page u h in ground (arith, grown.1 (entry_at u j))

  new_entry : (j : ℕ) → j < 512 → s'.words (entry_at (p * 4096) j) ≡ 0
  new_entry j hj =
      let (r, e, _, ne) = other_page t (omega arith) in
      ground (arith, grown.1 (entry_at (p * 4096) j))

  grown_bounded : length s'.pages ≤ 2 ^ 20
  grown_bounded = elim (Bool-cases (leb (length s'.pages) (2 ^ 20))) [
    | inl e ↦ ground arith
    | inr e ↦
        let (v, at) = get_elem?_of_lt s'.pages (2 ^ 20) (ground arith) in
        let gone = get_elem?_of_ge s.pages (2 ^ 20) tree.bounded in
        let there = lt_of_get_elem? s.pages p free in
        absurd (ground (arith, grown.0 (2 ^ 20), tree.bounded))
  ]

  not_table : kind (p * 4096) ≡ 0
  not_table = elim (Bool-cases (ltb 0 (kind (p * 4096)))) [
    | inl e ↦
        let (r, e', at, ne) = other_page (p * 4096) (ground arith) in absurd (ne (omega arith))
    | inr e ↦ ground arith
  ]

  grown-IsLink :
      (u j : ℕ)
      → 1 < updated kind (p * 4096) (kind t - 1) u
      → j < 512
      → is_kernel kernel (updated kind (p * 4096) (kind t - 1) u) j ≡ false
      → IsLink
          (updated kind (p * 4096) (kind t - 1))
          (updated parent (p * 4096) (entry_at t i))
          u
          j
          (s'.words (entry_at u j))
  grown-IsLink u j h hj user = elim (Bool-cases (u == p * 4096)) [
    | inl e ↦ let here : u ≡ p * 4096 = ground arith in inl (rw here (new_entry j hj))
    | inr e ↦
        let table : 1 < kind u = rw e at h in
        elim (Bool-cases (entry_at u j == entry_at t i)) [
          | inl same ↦
              let (is_t, is_i) =
                entry_unique tree t u i j (omega arith) (omega arith) hi hj (ground arith) in
              inr (p, ground (arith, grown.1 (entry_at u j)), ground arith, ground arith)
          | inr differ ↦
              let kept = old_entry u j (omega arith) hj (λ z. ground arith) in
              elim (tree.linked u j table hj (rw e at user)) [
                | inl w ↦ inl (kept ∙ w)
                | inr (q, w, level, hangs) ↦
                    inr (q, kept ∙ w, ground (arith, not_table), ground (arith, not_table))
              ]
        ]
  ]

  grown_framed :
      (u : ℕ)
      → 0 < updated kind (p * 4096) (kind t - 1) u
      → (r : ℕ) × (u ≡ r * 4096) × (get_elem? s'.pages r ≡ some allocated)
  grown_framed u h = elim (Bool-cases (u == p * 4096)) [
    | inl e ↦ (p, ground arith, ground (arith, grown.0 p))
    | inr e ↦ let (r, e', at, ne) = other_page u (rw e at h) in (r, e', ground (arith, grown.0 r))
  ]

  Ensured-new : Ensured kernel kind parent s t i (p * 4096) s'
  Ensured-new = record {
    kind' = updated kind (p * 4096) (kind t - 1);
    parent' = updated parent (p * 4096) (entry_at t i);
    tree = record {
      linked = grown-IsLink;
      levels = λ u. ground (arith, tree.levels u, tree.levels t);
      framed = grown_framed;
      first_reserved = ground (arith, grown.0 0, tree.first_reserved);
      bounded = grown_bounded;
    };
    extends = λ u h. ground (arith, not_table);
    level = ground arith;
    hangs = ground arith;
    link = ground (arith, grown.1 (entry_at t i));
    frame = old_entry;
    before = inr (empty, new_entry);
  }

-- An entry that links to a table is left as it is.
Ensured-old :
    (kernel : ℕ → Bool) (kind parent : ℕ → ℕ) (s : Memory) (t i q : ℕ)
    → IsTree kernel kind parent s
    → s.words (entry_at t i) ≡ q * 4096 + 7
    → kind (q * 4096) + 1 ≡ kind t
    → parent (q * 4096) ≡ entry_at t i
    → Ensured kernel kind parent s t i (q * 4096) s
Ensured-old kernel kind parent s t i q tree w level hangs = record {
  kind' = kind;
  parent' = parent;
  tree = tree;
  extends = λ u h. (refl, refl);
  level = level;
  hangs = hangs;
  link = w;
  frame = λ u j h hj n. refl;
  before = inl w;
}

ensure_table_old :
    (entry q next : ℕ) (s s' : Memory)
    → s.words entry ≡ q * 4096 + 7
    → 0 < q
    → ensure_table entry s ≡ some (next, s')
    → (next ≡ q * 4096) × (s' ≡ s)
unfolding ensure_table
ensure_table_old entry q next s s' w pos e =
    let base : base_address (s.words entry) ≡ q * 4096 = rw w (omega arith) in
    let there : (base_address (s.words entry) == 0) ≡ false = ground (arith, base) in
    let answer : some (base_address (s.words entry), s) ≡ some (next, s') = rw there at e in
    (sym (ap (λ x. x.0) (some_inverse answer)) ∙ base, sym (ap (λ x. x.1) (some_inverse answer)))

-- The word of a link to a new table.
abbrev pub link_word : ℕ → ℕ → ℕ
link_word word table = set_user (set_writable (set_present (set_base_address word table)))

-- What `ensure_table` answers with a new table.
abbrev pub linked_memory : ℕ → ℕ → Memory → ℕ × Memory
linked_memory entry table s₁ = (
  base_address (link_word (s₁.words entry) table),
  record s₁ { words = store s₁.words entry (link_word (s₁.words entry) table) },
)

Grown-link :
    (entry next p table : ℕ) (s s₁ s' : Memory)
    → s.words entry ≡ 0
    → table ≡ p * 4096
    → ((q : ℕ) → get_elem? s₁.pages q ≡ (if p == q then some allocated else get_elem? s.pages q))
    → s₁.words ≡ zeroed s.words (p * 4096) 4096
    → linked_memory entry table s₁ ≡ (next, s')
    → (next ≡ p * 4096) × Grown p entry s s'
Grown-link entry next p table s s₁ s' w at pages words answer =
    let clear : s₁.words entry ≡ 0 = rw words (ground (arith, w)) in
    let word : link_word (s₁.words entry) table ≡ p * 4096 + 7 = rw (clear, at) (table_entry p) in
    (
      sym (ap (λ x. x.0) answer) ∙ ap base_address word ∙ omega arith,
      (
        (λ q. ap (λ x. get_elem? x.1.pages q) (sym answer) ∙ pages q),
        λ b.
            ap (λ x. x.1.words b) (sym answer)
            ∙ ap (λ v. store s₁.words entry v b) word
            ∙ ap (λ f. store f entry (p * 4096 + 7) b) words,
      ),
    )

ensure_table_new :
    (entry next : ℕ) (s s' : Memory)
    → s.words entry ≡ 0
    → ensure_table entry s ≡ some (next, s')
    → (p : ℕ) × (next ≡ p * 4096) × (get_elem? s.pages p ≡ some available) × Grown p entry s s'
unfolding ensure_table
ensure_table_new entry next s s' w e =
    let none_yet : (base_address (s.words entry) == 0) ≡ true = ground (arith, w) in
    let (made, e₁, e₂) = >>=-eq-some (new_table s) _ (rw none_yet at e) in
    let (p, at, free, pages, words) = new_table_inverse s made.1 made.0 e₁ in
    let (is_next, grown) =
      Grown-link entry next p made.0 s made.1 s' w at pages words (some_inverse e₂) in
    (p, is_next, free, grown)

-- Whatever is behind an entry of a table above the last level, `ensure_table` answers a table one
-- level down that the entry then links to, and keeps the tree.
pub ensure_table_lem :
    (kernel : ℕ → Bool) (kind parent : ℕ → ℕ) (s s' : Memory) (t i next : ℕ)
    → IsTree kernel kind parent s
    → 1 < kind t
    → i < 512
    → is_kernel kernel (kind t) i ≡ false
    → ensure_table (entry_at t i) s ≡ some (next, s')
    → Ensured kernel kind parent s t i next s'
ensure_table_lem kernel kind parent s s' t i next tree above hi user e =
    elim (tree.linked t i above hi user) [
      | inl w ↦
          let (p, at, free, grown) = ensure_table_new (entry_at t i) next s s' w e in
          rw at (Ensured-new kernel kind parent s s' tree t i p above hi free grown w)
      | inr (q, w, level, hangs) ↦
          let (pos, _) = table_bound tree (q * 4096) (omega arith) in
          let (at, same) = ensure_table_old (entry_at t i) q next s s' w (omega arith) e in
          rw (at, same) (Ensured-old kernel kind parent s t i q tree w level hangs)
    ]
