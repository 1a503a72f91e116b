-- ===== src/Vma/Insert.antt =====
-- `insert_mapping`, level by level.
use infos.Prelude.{
  ℕ, suc, ◌+◌, ◌*◌, ◌<◌, ◌≤◌, ◌≡◌, ◌≢◌, refl, sym, ap, ◌∙◌, inl, inr, Bool, true, some, List, [],
  ◌∷◌, ltb, ◌==◌, assert, length, Bool-cases, >>=-eq-some, some_inverse, arith,
}
use infos.Vma.{
  Memory, pmem_size, store, ensure_table, get_walk, insert_walk, MappingFlags, leaf_word,
}
use infos.Vma.Entry.{base_address}
use infos.Vma.Tables.{entry_at, IsTree, table_bound, entry_unique, Ensured}
use infos.Vma.Ensure.{ensure_table_lem}
use infos.Vma.Walks.{
  AreIndices, is_user, is_user-below, user_slot, frame_of, get_walk_last, get_walk_empty,
  get_walk_link, get_walk_cleared, get_walk_same, leaf_word_lem,
}

-- What an insertion below table `t` did: the walk along its indices ends at the new frame, every
-- other walk from a table of that level is as before, and so are the tables above.
pub record Inserted (kernel : ℕ → Bool) (kind parent : ℕ → ℕ) (s : Memory) (t : ℕ) (is : List ℕ)
    (pa : ℕ) (s' : Memory) : Type 0 where
  pub kind' : ℕ → ℕ
  pub parent' : ℕ → ℕ
  pub tree : IsTree kernel kind' parent' s'
  pub extends : (u : ℕ) → 0 < kind u → (kind' u ≡ kind u) × (parent' u ≡ parent u)
  pub here : get_walk s'.words t is ≡ some (some (base_address pa))
  pub others :
      (u : ℕ) (js : List ℕ)
      → kind u ≡ length is
      → length js ≡ length is
      → AreIndices js
      → is_user kernel js ≡ true
      → (u ≡ t → js ≢ is)
      → get_walk s'.words u js ≡ get_walk s.words u js
  pub frame :
      (u j : ℕ) → length is < kind u → j < 512 → s'.words (entry_at u j) ≡ s.words (entry_at u j)

store_self : (words : ℕ → ℕ) (a v : ℕ) → store words a v a ≡ v
store_self words a v = ground arith

-- The last level.
module _ (kernel : ℕ → Bool) (kind parent : ℕ → ℕ) (s : Memory) (tree : IsTree kernel kind parent s)
    (t i pa : ℕ) (flags : MappingFlags) (level : kind t ≡ 1) (hi : i < 512)
    (is_present : flags.is_present ≡ true) where
  abbrev written : Memory
  written = record s {
    words = store s.words (entry_at t i) (leaf_word flags pa (s.words (entry_at t i)));
  }

  not_written :
      (u j : ℕ)
      → 0 < kind u
      → j < 512
      → (u ≡ t → j ≢ i)
      → written.words (entry_at u j) ≡ s.words (entry_at u j)
  not_written u j h hj n = elim (Bool-cases (entry_at t i == entry_at u j)) [
    | inl e ↦
        let (a, b) = entry_unique tree t u i j (omega arith) h hi hj (ground arith) in
        absurd (n a b)
    | inr e ↦ rw e refl
  ]

  written-IsTree : IsTree kernel kind parent written
  written-IsTree = record {
    linked = λ u j h hj user.
        rw (not_written u j (omega arith) hj (λ a. absurd (omega (arith, ap kind a))))
          (tree.linked u j h hj user);
    levels = tree.levels;
    framed = tree.framed;
    first_reserved = tree.first_reserved;
    bounded = tree.bounded;
  }

  written_others :
      (u : ℕ) (js : List ℕ)
      → kind u ≡ 1
      → length js ≡ 1
      → AreIndices js
      → is_user kernel js ≡ true
      → (u ≡ t → js ≢ i ∷ [])
      → get_walk written.words u js ≡ get_walk s.words u js
  written_others u [] h one ok user n = absurd (omega arith)
  written_others u (j ∷ k ∷ rest) h one ok user n = absurd (omega arith)
  written_others u (j ∷ []) h one (hj, ok) user n =
      let (_, bound) = table_bound tree u (omega arith) in
      get_walk_last written.words u j bound
      ∙ ap (λ w. some (frame_of w))
          (not_written u j (omega arith) hj (λ a b. n a (ap (λ x. x ∷ []) b)))
      ∙ sym (get_walk_last s.words u j bound)

  Inserted-last : Inserted kernel kind parent s t (i ∷ []) pa written
  Inserted-last =
      let (_, bound) = table_bound tree t (omega arith) in
      let stored : written.words (entry_at t i) ≡ leaf_word flags pa (s.words (entry_at t i)) =
        store_self s.words (entry_at t i) (leaf_word flags pa (s.words (entry_at t i))) in
      record {
        kind' = kind;
        parent' = parent;
        tree = written-IsTree;
        extends = λ u h. (refl, refl);
        here =
            get_walk_last written.words t i bound
            ∙ ap (λ w. some (frame_of w)) stored
            ∙ ap some (leaf_word_lem flags pa (s.words (entry_at t i)) is_present);
        others = written_others;
        frame =
            λ u j h hj. not_written u j (omega arith) hj (λ a. absurd (omega (arith, ap kind a)));
      }

-- A level above the last one.
module _ (kernel : ℕ → Bool) (kind parent : ℕ → ℕ) (s s₁ s' : Memory)
    (tree : IsTree kernel kind parent s) (t i next pa j : ℕ) (rest : List ℕ)
    (level : kind t ≡ suc (suc (length rest))) (hi : i < 512)
    (user : is_user kernel (i ∷ j ∷ rest) ≡ true) (ok : AreIndices (j ∷ rest))
    (ensured : Ensured kernel kind parent s t i next s₁)
    (inserted : Inserted kernel ensured.kind' ensured.parent' s₁ next (j ∷ rest) pa s') where
  low : suc (length rest) ≤ 3
  low = omega (arith, tree.levels t)

  next_page : (q : ℕ) × (next ≡ q * 4096)
  next_page = let (q, e, _) = ensured.tree.framed next (omega (arith, ensured.level)) in (q, e)

  kept_above :
      (u k : ℕ)
      → suc (length rest) < kind u
      → k < 512
      → s'.words (entry_at u k) ≡ s₁.words (entry_at u k)
  kept_above u k h hk =
      let (same, _) = ensured.extends u (omega arith) in inserted.frame u k (omega (arith, same)) hk

  -- The entry of the level itself, which the insertion below leaves alone.
  link_kept : s'.words (entry_at t i) ≡ next + 7
  link_kept = kept_above t i (omega arith) hi ∙ ensured.link

  through_link :
      (k : ℕ) (ks : List ℕ) → get_walk s'.words t (i ∷ k ∷ ks) ≡ get_walk s'.words next (k ∷ ks)
  through_link k ks =
      let (_, bound) = table_bound tree t (omega arith) in
      let (q, e) = next_page in
      get_walk_link s'.words t i k q ks bound (link_kept ∙ ap (λ n. n + 7) e)
      ∙ ap (λ n. get_walk s'.words n (k ∷ ks)) (sym e)

  -- Making sure of the table changes no walk below its level.
  ensured_below :
      (v l : ℕ) (ks : List ℕ)
      → kind v ≡ suc (length rest)
      → length ks ≡ length rest
      → AreIndices (l ∷ ks)
      → get_walk s₁.words v (l ∷ ks) ≡ get_walk s.words v (l ∷ ks)
  ensured_below v l ks h same okk =
      get_walk_same kernel kind parent s s₁.words v (l ∷ ks) (suc (length rest)) tree (omega arith)
        (omega arith) okk (is_user-below kernel l ks (omega (arith, low)))
        (λ u m hu le hm. ensured.frame u m hu hm (λ a.
          let (b, _) = entry_unique tree t u i m (omega arith) hu hi hm a in
          omega (arith, ap kind b)))

  old_level : s.words (entry_at t i) ≡ next + 7 → kind next ≡ suc (length rest)
  old_level w =
      elim (tree.linked t i (omega arith) hi (user_slot kernel (kind t) i (j ∷ rest) level user)) [
        | inl e ↦ absurd (omega arith)
        | inr (q, e, below, _) ↦ let at : next ≡ q * 4096 = omega arith in rw at (omega arith)
      ]

  -- A walk through the entry, below which another path is taken.
  other_below :
      (k : ℕ) (ks : List ℕ)
      → length ks ≡ length rest
      → AreIndices (k ∷ ks)
      → k ∷ ks ≢ j ∷ rest
      → get_walk s'.words t (i ∷ k ∷ ks) ≡ get_walk s.words t (i ∷ k ∷ ks)
  other_below k ks same (hk, okk) n =
      let (_, bound) = table_bound tree t (omega arith) in
      let (q, e) = next_page in
      let (_, next_bound) = table_bound ensured.tree next (omega (arith, ensured.level)) in
      let below =
        through_link k ks
        ∙ inserted.others next (k ∷ ks) (omega (arith, ensured.level)) (omega arith) (hk, okk)
            (is_user-below kernel k ks (omega (arith, low))) (λ _. n) in
      elim ensured.before [
        | inl w ↦
            below
            ∙ ensured_below next k ks (old_level w) same (hk, okk)
            ∙ ap (λ m. get_walk s.words m (k ∷ ks)) e
            ∙ sym (get_walk_link s.words t i k q ks bound (w ∙ ap (λ m. m + 7) e))
        | inr (w, clear) ↦
            below
            ∙ get_walk_cleared s₁.words next k ks next_bound hk clear
            ∙ sym (get_walk_empty s.words t i k ks bound w)
      ]

  -- A walk that does not go through the entry.
  other_entry :
      (u k l : ℕ) (ks : List ℕ)
      → kind u ≡ suc (suc (length rest))
      → length ks ≡ length rest
      → k < 512
      → AreIndices (l ∷ ks)
      → is_user kernel (k ∷ l ∷ ks) ≡ true
      → entry_at u k ≢ entry_at t i
      → get_walk s'.words u (k ∷ l ∷ ks) ≡ get_walk s.words u (k ∷ l ∷ ks)
  other_entry u k l ks h same hk okk at_user n =
      let (_, bound) = table_bound tree u (omega arith) in
      let kept = kept_above u k (omega arith) hk ∙ ensured.frame u k (omega arith) hk n in
      elim (tree.linked u k (omega arith) hk
        (user_slot kernel (kind u) k (l ∷ ks) (omega arith) at_user)) [
          | inl w ↦
              get_walk_empty s'.words u k l ks bound (kept ∙ w)
              ∙ sym (get_walk_empty s.words u k l ks bound w)
          | inr (q, w, below, hangs) ↦
              let (kind_same, parent_same) = ensured.extends (q * 4096) (omega arith) in
              get_walk_link s'.words u k l q ks bound (kept ∙ w)
              ∙ inserted.others (q * 4096) (l ∷ ks) (omega arith) (omega arith) okk
                  (is_user-below kernel l ks (omega (arith, low)))
                  (λ a.
                    absurd (n (sym hangs ∙ sym parent_same ∙ ap ensured.parent' a ∙ ensured.hangs)))
              ∙ ensured_below (q * 4096) l ks (omega arith) same okk
              ∙ sym (get_walk_link s.words u k l q ks bound w)
        ]

  level_others :
      (u : ℕ) (js : List ℕ)
      → kind u ≡ suc (suc (length rest))
      → length js ≡ suc (suc (length rest))
      → AreIndices js
      → is_user kernel js ≡ true
      → (u ≡ t → js ≢ i ∷ j ∷ rest)
      → get_walk s'.words u js ≡ get_walk s.words u js
  level_others u [] h same okj at_user n = absurd (omega arith)
  level_others u (k ∷ []) h same okj at_user n = absurd (omega arith)
  level_others u (k ∷ l ∷ ks) h same (hk, okj) at_user n =
      elim (Bool-cases (entry_at u k == entry_at t i)) [
        | inl e ↦
            let (a, b) =
              entry_unique tree t u i k (omega arith) (omega arith) hi hk (ground arith) in
            rw (a, b) (other_below l ks (omega arith) okj (λ c. n a (rw b (ap (λ x. i ∷ x) c))))
        | inr e ↦ other_entry u k l ks h (omega arith) hk okj at_user (λ c. ground arith)
      ]

  Inserted-level : Inserted kernel kind parent s t (i ∷ j ∷ rest) pa s'
  Inserted-level = record {
    kind' = inserted.kind';
    parent' = inserted.parent';
    tree = inserted.tree;
    extends = λ u h.
        let (a, b) = ensured.extends u h in
        let (a', b') = inserted.extends u (omega (arith, a)) in (a' ∙ a, b' ∙ b);
    here = through_link j rest ∙ inserted.here;
    others = level_others;
    frame = λ u k h hk.
        kept_above u k (omega arith) hk
        ∙ ensured.frame u k (omega arith) hk (λ a.
          let (b, _) = entry_unique tree t u i k (omega arith) (omega arith) hi hk a in
          omega (arith, ap kind b));
  }

-- A walk of `insert_mapping` that returns did what `Inserted` says.
pub insert_walk_lem :
    (kernel : ℕ → Bool) (kind parent : ℕ → ℕ) (s s' : Memory) (t i : ℕ) (rest : List ℕ) (pa : ℕ)
    (flags : MappingFlags)
    → IsTree kernel kind parent s
    → kind t ≡ suc (length rest)
    → AreIndices (i ∷ rest)
    → is_user kernel (i ∷ rest) ≡ true
    → flags.is_present ≡ true
    → insert_walk (i ∷ rest) t pa flags s ≡ some s'
    → Inserted kernel kind parent s t (i ∷ rest) pa s'
unfolding insert_walk
insert_walk_lem kernel kind parent s s' t i [] pa flags tree level (hi, ok) user is_present e =
    let (_, _, e₁) = >>=-eq-some (assert (ltb t pmem_size)) _ e in
    let same : s' ≡ written kernel kind parent s tree t i pa flags (omega arith) hi is_present =
      sym (some_inverse e₁) in
    rw same (Inserted-last kernel kind parent s tree t i pa flags (omega arith) hi is_present)
insert_walk_lem kernel kind parent s s' t i (j ∷ rest) pa flags tree level (hi, ok) user is_present
      e =
    let (_, _, e₁) = >>=-eq-some (assert (ltb t pmem_size)) _ e in
    let (answer, made, e₂) = >>=-eq-some (ensure_table (entry_at t i) s) _ e₁ in
    let ensured =
      ensure_table_lem kernel kind parent s answer.1 t i answer.0 tree (omega arith) hi
        (user_slot kernel (kind t) i (j ∷ rest) level user) made in
    Inserted-level kernel kind parent s answer.1 s' tree t i answer.0 pa j rest level hi user ok
      ensured
      (insert_walk_lem kernel ensured.kind' ensured.parent' answer.1 s' answer.0 j rest pa flags
        ensured.tree (omega (arith, ensured.level)) ok
        (is_user-below kernel j rest (omega (arith, tree.levels t))) is_present e₂)
