-- ===== src/Map/Contents.antt =====
-- The contents of a tree in the order of its keys, and a map as a sorted list of its entries.
use infos.Prelude.{
  ℕ, ◌+◌, ◌<◌, ◌≡◌, refl, Option, none, some, List, [], ◌∷◌, ◌++◌, ltb, ◌==◌, if◌then◌else◌, arith,
  length,
}
use infos.Map.{Tree, leaf, node, find_node, is_some}

module _ {ℓ} {V : Type ℓ} where
  abbrev pub inorder : Tree V → List (ℕ × V)
  inorder leaf = []
  inorder (node c l k v r) = inorder l ++ ((k, v) ∷ inorder r)

  -- Every key of a list of entries satisfies `P`.
  abbrev pub All {κ} : (ℕ → Type κ) → List (ℕ × V) → Type κ
  All P [] = Unit
  All P ((k, v) ∷ xs) = P k × All P xs

  -- Keys rise strictly.
  abbrev pub IsSorted : List (ℕ × V) → Type 0
  IsSorted [] = Unit
  IsSorted ((k, v) ∷ xs) = All (λ j. k < j) xs × IsSorted xs

  -- The abstract map: reading and writing a sorted list.
  unfoldable pub lookup : ℕ → List (ℕ × V) → Option V
  lookup q [] = none
  lookup q ((k, v) ∷ xs) = if k == q then some v else lookup q xs

  unfoldable pub insert : ℕ → V → List (ℕ × V) → List (ℕ × V)
  insert q w [] = (q, w) ∷ []
  insert q w ((k, v) ∷ xs) =
      if ltb q k
      then (q, w) ∷ (k, v) ∷ xs
      else if q == k
      then (q, w) ∷ xs
      else (k, v) ∷ insert q w xs

  pub All-imp {κ μ} :
      {P : ℕ → Type κ} {Q : ℕ → Type μ}
      → ((k : ℕ) → P k → Q k)
      → (xs : List (ℕ × V)) → All P xs
      → All Q xs
  All-imp f [] a = tt
  All-imp f ((k, v) ∷ xs) a = (f k a.0, All-imp f xs a.1)

  pub All-append {κ} :
      (P : ℕ → Type κ) (xs ys : List (ℕ × V)) → All P xs → All P ys → All P (xs ++ ys)
  All-append P [] ys a b = b
  All-append P ((k, v) ∷ xs) ys a b = (a.0, All-append P xs ys a.1 b)

  pub All-split {κ} :
      (P : ℕ → Type κ) (xs ys : List (ℕ × V)) → All P (xs ++ ys) → All P xs × All P ys
  All-split P [] ys a = (tt, a)
  All-split P ((k, v) ∷ xs) ys a = ((a.0, (All-split P xs ys a.1).0), (All-split P xs ys a.1).1)

  -- The parts of a sorted list around an entry.
  pub IsSorted-split :
      (xs : List (ℕ × V)) (k : ℕ) (v : V) (ys : List (ℕ × V))
      → IsSorted (xs ++ ((k, v) ∷ ys))
      → IsSorted xs × All (λ j. j < k) xs × All (λ j. k < j) ys × IsSorted ys
  IsSorted-split [] k v ys s = (tt, tt, s.0, s.1)
  IsSorted-split ((i, u) ∷ xs) k v ys s =
      let rest = IsSorted-split xs k v ys s.1 in
      let parts = All-split (λ j. i < j) xs ((k, v) ∷ ys) s.0 in
      ((parts.0, rest.0), (parts.1.0, rest.1), rest.2, rest.3)

  pub lookup_beyond : (q : ℕ) (xs : List (ℕ × V)) → All (λ j. q < j) xs → lookup q xs ≡ none
  unfolding lookup
  lookup_beyond q [] a = refl
  lookup_beyond q ((k, v) ∷ xs) a = ground (arith, lookup_beyond q xs)

  -- Reading at an entry splits the list there.
  pub lookup_around :
      (q : ℕ) (xs : List (ℕ × V)) (k : ℕ) (v : V) (ys : List (ℕ × V))
      → IsSorted (xs ++ ((k, v) ∷ ys))
      → lookup q (xs ++ ((k, v) ∷ ys))
        ≡ (if ltb q k then lookup q xs else if ltb k q then lookup q ys else some v)
  unfolding lookup
  lookup_around q [] k v ys s = ground (arith, lookup_beyond q ys, lookup_far)
    where
      lookup_far : q < k → lookup q ys ≡ none
      lookup_far h = lookup_beyond q ys (All-imp (λ j g. omega arith) ys s.0)
  lookup_around q ((i, u) ∷ xs) k v ys s =
      ground (arith, lookup_around q xs k v ys s.1, (IsSorted-split ((i, u) ∷ xs) k v ys s).1.0)

  pub insert_around :
      (q : ℕ) (w : V) (xs : List (ℕ × V)) (k : ℕ) (v : V) (ys : List (ℕ × V))
      → IsSorted (xs ++ ((k, v) ∷ ys))
      → insert q w (xs ++ ((k, v) ∷ ys)) ≡ (
          if q == k
          then xs ++ ((k, w) ∷ ys)
          else if ltb q k
          then insert q w xs ++ ((k, v) ∷ ys)
          else xs ++ ((k, v) ∷ insert q w ys))
  unfolding insert
  insert_around q w [] k v ys s = ground arith
  insert_around q w ((i, u) ∷ xs) k v ys s =
      ground (arith, insert_around q w xs k v ys s.1, (IsSorted-split ((i, u) ∷ xs) k v ys s).1.0)

  -- The abstract map law: a write is read back, and changes no other key.
  pub lookup-insert :
      (q j : ℕ) (w : V) (xs : List (ℕ × V))
      → IsSorted xs
      → lookup j (insert q w xs) ≡ (if q == j then some w else lookup j xs)
  unfolding lookup insert
  lookup-insert q j w [] s = refl
  lookup-insert q j w ((k, v) ∷ xs) s = ground (arith, lookup-insert q j w xs s.1)

  All-insert {κ} :
      (P : ℕ → Type κ) (q : ℕ) (w : V) (xs : List (ℕ × V)) → P q → All P xs → All P (insert q w xs)
  unfolding insert
  All-insert P q w [] p a = (p, tt)
  All-insert P q w ((k, v) ∷ xs) p a = ground (arith, All-insert P q w xs p a.1)

  pub insert-IsSorted : (q : ℕ) (w : V) (xs : List (ℕ × V)) → IsSorted xs → IsSorted (insert q w xs)
  unfolding insert
  insert-IsSorted q w [] s = (tt, tt)
  insert-IsSorted q w ((k, v) ∷ xs) s =
      ground (arith, insert-IsSorted q w xs s.1, All-insert (λ j. k < j) q w xs, far)
    where
      far : q < k → All (λ j. q < j) xs
      far h = All-imp (λ j g. omega arith) xs s.0

  -- The walk of the source reads the sorted list.
  pub find_node-eq-lookup :
      (q : ℕ) (t : Tree V) → IsSorted (inorder t) → find_node q t ≡ lookup q (inorder t)
  unfolding find_node lookup
  find_node-eq-lookup q leaf s = refl
  find_node-eq-lookup q (node c l k v r) s =
      let parts = IsSorted-split (inorder l) k v (inorder r) s in
      ground (
        arith,
        find_node-eq-lookup q l parts.0,
        find_node-eq-lookup q r parts.3,
        lookup_around q (inorder l) k v (inorder r) s,
      )

  pub length-insert :
      (q : ℕ) (w : V) (xs : List (ℕ × V))
      → IsSorted xs
      → length (insert q w xs) ≡ (if is_some (lookup q xs) then length xs else length xs + 1)
  unfolding insert lookup
  length-insert q w [] s = refl
  length-insert q w ((k, v) ∷ xs) s = ground (arith, length-insert q w xs s.1, far)
    where
      far : q < k → lookup q xs ≡ none
      far h = lookup_beyond q xs (All-imp (λ j g. omega arith) xs s.0)
