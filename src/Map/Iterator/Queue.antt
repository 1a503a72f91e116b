-- ===== src/Map/Iterator/Queue.antt =====
-- The queue of the iterator, weighed by the entries of its trees.
use infos.Prelude.{
  ℕ, ◌+◌, ◌^◌, ◌≤◌, ◌<◌, ◌≡◌, refl, Option, none, some, List, [], ◌∷◌, ◌++◌, length, arith,
}
use infos.LinkedList
use infos.LinkedList.{LinkedList}
use infos.LinkedList.Laws
use infos.Map.{Tree, leaf, node}
use infos.Map.Contents.{inorder}
use infos.Map.Iterator.{Iterator, enqueue_child, weigh}

module _ {ℓ} {V : Type ℓ} where
  pub weigh-append :
      (p : ℕ → V → ℕ) (xs ys : List (ℕ × V)) → weigh p (xs ++ ys) ≡ weigh p xs + weigh p ys
  weigh-append p [] ys = omega arith
  weigh-append p ((k, v) ∷ xs) ys = omega (arith, weigh-append p xs ys)

  -- What stands in the trees of a queue, weighed.
  abbrev pub load : (ℕ → V → ℕ) → List (Tree V) → ℕ
  load p [] = 0
  load p (t ∷ ts) = weigh p (inorder t) + load p ts

  pub load-append :
      (p : ℕ → V → ℕ) (xs ys : List (Tree V)) → load p (xs ++ ys) ≡ load p xs + load p ys
  load-append p [] ys = omega arith
  load-append p (t ∷ xs) ys = omega (arith, load-append p xs ys)

  -- No null pointer in a queue.
  abbrev pub AreNodes : List (Tree V) → Type 0
  AreNodes [] = Unit {0}
  AreNodes (leaf ∷ ts) = ⊥
  AreNodes (node c l k v r ∷ ts) = AreNodes ts

  abbrev pub add_child : Tree V → List (Tree V) → List (Tree V)
  add_child leaf ts = ts
  add_child (node c l k v r) ts = ts ++ node c l k v r ∷ []

  pub AreNodes-add_child :
      (t : Tree V) (ts : List (Tree V)) → AreNodes ts → AreNodes (add_child t ts)
  AreNodes-add_child leaf ts a = a
  AreNodes-add_child (node c l k v r) [] a = tt
  AreNodes-add_child (node c l k v r) (leaf ∷ ts) a = a
  AreNodes-add_child (node c l k v r) (node c' l' k' v' r' ∷ ts) a =
      AreNodes-add_child (node c l k v r) ts a

  pub load-add_child :
      (p : ℕ → V → ℕ) (t : Tree V) (ts : List (Tree V))
      → load p (add_child t ts) ≡ load p ts + weigh p (inorder t)
  load-add_child p leaf ts = omega arith
  load-add_child p (node c l k v r) ts = omega (arith, load-append p ts (node c l k v r ∷ []))

  pub enqueue_child-elems :
      (t : Tree V) (queue : LinkedList (Tree V))
      → (enqueue_child t queue).elems ≡ add_child t queue.elems
  unfolding LinkedList.enqueue
  enqueue_child-elems leaf queue = refl
  enqueue_child-elems (node c l k v r) queue = Laws.append-elems _ queue

  pub enqueue_child-IsCounted :
      (t : Tree V) (queue : LinkedList (Tree V))
      → Laws.IsCounted queue
      → Laws.IsCounted (enqueue_child t queue)
  unfolding LinkedList.enqueue
  enqueue_child-IsCounted leaf queue c = c
  enqueue_child-IsCounted (node c l k v r) queue x = Laws.append-IsCounted _ queue x

  pub length-load : (ts : List (Tree V)) → AreNodes ts → length ts ≤ load (λ k v. 1) ts
  length-load [] a = omega arith
  length-load (leaf ∷ ts) a = absurd a
  length-load (node c l k v r ∷ ts) a =
      omega (arith, length-load ts a, weigh-append (λ k v. 1) (inorder l) ((k, v) ∷ inorder r))

  -- A queue of so many nodes, whose count did not wrap.
  pub record IsQueue (queue : LinkedList (Tree V)) : Type 0 where
    pub nodes : AreNodes queue.elems
    pub counted : Laws.IsCounted queue
    pub bounded : load (λ k v. 1) queue.elems < 2 ^ 32

  -- The entry of an iterator, weighed.
  abbrev pub now : (ℕ → V → ℕ) → Option (ℕ × V) → ℕ
  now p none = 0
  now p (some (k, v)) = p k v

  pub record IsIterator (it : Iterator V) : Type ℓ where
    pub queue : IsQueue it.queue
    pub ended : it.current ≡ none → it.queue.elems ≡ []
