-- ===== src/LinkedList/Laws.antt =====
-- What the list's operations promise: a queue whose count is its length.
use infos.Prelude.{
  zero, suc, drop, ℕ, ◌+◌, ◌%◌, ◌^◌, ◌<◌, ◌≡◌, refl, ap, ◌∙◌, sym, Bool, some, List, [], ◌∷◌, ◌++◌,
  ◌==◌, length, length-append, arith, Option-cases, inl, inr,
}
use mathlib.Core.List.{append-nil, append_assoc}
use infos.LinkedList.{
  LinkedList, append_node, append, unlink, remove, dequeue, dequeue_node, at, at_node, last,
  last_of, last_node, copy, copy_onto, is_empty, inc32, dec32,
}

module _ {ℓ} {A : Type ℓ} where
  -- The cached count is the length, as an unsigned int.
  pub record IsCounted (l : LinkedList A) : Type 0 where
    pub counted : l.count ≡ length l.elems % 2 ^ 32

  pub append_node-eq-append : (a : A) (xs : List A) → append_node a xs ≡ xs ++ (a ∷ [])
  unfolding append_node
  append_node-eq-append a [] = refl
  append_node-eq-append a (x ∷ xs) = ap (λ ys. x ∷ ys) (append_node-eq-append a xs)

  pub append-elems : (a : A) (l : LinkedList A) → (append a l).elems ≡ l.elems ++ (a ∷ [])
  unfolding append
  append-elems a l = append_node-eq-append a l.elems

  pub append-IsCounted : (a : A) (l : LinkedList A) → IsCounted l → IsCounted (append a l)
  unfolding append
  append-IsCounted a l c = record {
    counted = rw (append_node-eq-append, length-append) (omega (arith, c.counted));
  }

  length-unlink :
      (eq : A → A → Bool) (a : A) (xs : List A) {ys : List A}
      → unlink eq a xs ≡ some ys
      → length xs ≡ length ys + 1
  unfolding unlink
  length-unlink eq a [] e = cc
  length-unlink eq a (x ∷ xs) {ys} e = elim (Option-cases (unlink eq a xs)) [
    | inl gone ↦ ground arith
    | inr (zs, found) ↦ ground (arith, length-unlink eq a xs found)
  ]

  pub remove-IsCounted :
      (eq : A → A → Bool) (a : A) (l : LinkedList A) → IsCounted l → IsCounted (remove eq a l)
  unfolding remove
  remove-IsCounted eq a l c = elim (Option-cases (unlink eq a l.elems)) [
    | inl gone ↦ rw (gone, remove) c
    | inr (ys, found) ↦ record {
      counted = rw (found, remove) (omega (arith, length-unlink eq a l.elems found, c.counted));
    }
  ]

  copy_onto-elems : (xs : List A) (l : LinkedList A) → (copy_onto xs l).elems ≡ l.elems ++ xs
  unfolding copy_onto
  copy_onto-elems [] l = sym (append-nil l.elems)
  copy_onto-elems (x ∷ xs) l =
      copy_onto-elems xs (append x l)
      ∙ ap (λ ys. ys ++ xs) (append-elems x l)
      ∙ append_assoc l.elems (x ∷ []) xs

  copy_onto-IsCounted : (xs : List A) (l : LinkedList A) → IsCounted l → IsCounted (copy_onto xs l)
  unfolding copy_onto
  copy_onto-IsCounted [] l c = c
  copy_onto-IsCounted (x ∷ xs) l c = copy_onto-IsCounted xs (append x l) (append-IsCounted x l c)

  eq_of_elems : (l r : LinkedList A) → IsCounted l → IsCounted r → l.elems ≡ r.elems → l ≡ r
  eq_of_elems l r c d e =
      let n : l.count ≡ r.count = c.counted ∙ ap (λ xs. length xs % 2 ^ 32) e ∙ sym d.counted in
      λ i. record { elems = e i; count = n i }

  -- A copy is the list: same elements in the same order, same count.
  pub copy_lem : (l : LinkedList A) → IsCounted l → copy l ≡ l
  unfolding copy
  copy_lem l c =
      eq_of_elems (copy l) l (copy_onto-IsCounted l.elems _ (record { counted = refl })) c
        (copy_onto-elems l.elems _)

  -- First in, first out: what is enqueued on a list comes out after what was there.
  pub dequeue-append :
      (a b : A) (xs : List A) (n : ℕ)
      → dequeue (append b (record { elems = a ∷ xs; count = n }))
        ≡ some (a, record { elems = xs ++ (b ∷ []); count = dec32 (inc32 n) })
  unfolding dequeue append dequeue_node
  dequeue-append a b xs n = rw (append_node-eq-append b xs, append_node)

  -- `last` is the newest of what was appended.
  pub last-append : (a : A) (l : LinkedList A) → last (append a l) ≡ some a
  unfolding last append
  last-append a l = go l.elems
    where
      walk : (x : A) (xs : List A) → last_node x (append_node a xs) ≡ a
      walk x [] = refl
      walk x (y ∷ ys) = walk y ys

      go : (xs : List A) → last_of (append_node a xs) ≡ some a
      go [] = refl
      go (x ∷ xs) = ap some (walk x xs)

  -- `empty` tells the truth while the count has not wrapped.
  pub is_empty_iff :
      (l : LinkedList A)
      → IsCounted l
      → length l.elems < 2 ^ 32
      → is_empty l ≡ (length l.elems == 0)
  unfolding is_empty
  is_empty_iff l c h = ground arith

  pub dequeue-cons :
      (x : A) (xs : List A) (n : ℕ)
      → dequeue (record { elems = x ∷ xs; count = n })
        ≡ some (x, record { elems = xs; count = dec32 n })
  unfolding dequeue dequeue_node
  dequeue-cons x xs n = refl

  pub dequeue-IsCounted :
      (x : A) (xs : List A) (n : ℕ)
      → IsCounted (record { elems = x ∷ xs; count = n })
      → IsCounted (record { elems = xs; count = dec32 n })
  dequeue-IsCounted x xs n c = record { counted = omega (arith, c.counted) }

  -- `at` gives the element behind as many as its index says.
  pub at-drop :
      (l : LinkedList A) (i : ℕ)
      → i < length l.elems
      → (a : A) × (at l i ≡ some a) × (drop i l.elems ≡ a ∷ drop (suc i) l.elems)
  unfolding at at_node
  at-drop l i h = go l.elems i h
    where
      go :
          (xs : List A) (i : ℕ)
          → i < length xs
          → (a : A) × (at_node xs i ≡ some a) × (drop i xs ≡ a ∷ drop (suc i) xs)
      go [] i h = absurd (omega arith)
      go (x ∷ xs) zero h = (x, refl, refl)
      go (x ∷ xs) (suc i) h = go xs i (omega arith)
