-- ===== src/Map/Iterator.antt =====
-- `MapIterator` of include/infos/util/map.h, and the loop `for (auto x : map)`. A pointer to a node is
-- the tree below it.
pub mod Queue
pub mod Loop
use infos.Prelude.{
  ℕ, zero, suc, ◌+◌, ◌^◌, ◌≤◌, ◌<◌, ◌≡◌, refl, ap, ◌∙◌, false, Option, none, some, List, [], ◌∷◌,
  ◌++◌, ◌==◌, if◌then◌else◌, length, ◌>>=◌, arith,
}
use infos.LinkedList
use infos.LinkedList.{LinkedList}
use infos.LinkedList.Laws
use infos.Map.{Tree, leaf, node, Map, Colour}
use infos.Map.Contents.{inorder}

-- `_queue`, and the key and value of `_current`; a null pointer is `none`.
pub record Iterator {ℓ} (V : Type ℓ) : Type ℓ where
  pub queue : LinkedList (Tree V)
  pub current : Option (ℕ × V)

module _ {ℓ} {V : Type ℓ} where
  abbrev pub enqueue_child : Tree V → LinkedList (Tree V) → LinkedList (Tree V)
  enqueue_child leaf queue = queue
  enqueue_child (node c l k v r) queue = LinkedList.enqueue (node c l k v r) queue

  -- The node that `advance` takes from the queue.
  unfoldable pub visit : Tree V → LinkedList (Tree V) → Option (Iterator V)
  visit leaf queue = none
  visit (node c l k v r) queue =
      some (record { queue = enqueue_child r (enqueue_child l queue); current = some (k, v) })

  unfoldable pub advance : LinkedList (Tree V) → Option (Iterator V)
  unfolding visit
  advance queue =
      if LinkedList.is_empty queue
      then some (record { queue = queue; current = none })
      else (do (current, rest) ← LinkedList.dequeue queue; visit current rest)

  unfoldable pub begin_at : Tree V → Option (Iterator V)
  unfolding advance
  begin_at leaf = some (record { queue = LinkedList.new; current = none })
  begin_at (node c l k v r) = advance (LinkedList.enqueue (node c l k v r) LinkedList.new)

  -- The loop, from an iterator on; the fuel counts the rounds.
  unfoldable pub entries_from : ℕ → Iterator V → Option (List (ℕ × V))
  unfolding advance
  entries_from zero it = none
  entries_from (suc fuel) it = elim it.current [
    | none ↦ some []
    | some entry ↦ advance it.queue >>= λ it'. entries_from fuel it' >>= λ rest. some (entry ∷ rest)
  ]

  unfoldable pub entries : ℕ → Map V → Option (List (ℕ × V))
  unfolding begin_at entries_from
  entries fuel m = begin_at m.root >>= λ it. entries_from fuel it

  -- Entries weighed by a function: two lists are rearrangements of one another if every function
  -- weighs them alike.
  abbrev pub weigh : (ℕ → V → ℕ) → List (ℕ × V) → ℕ
  weigh p [] = 0
  weigh p ((k, v) ∷ rest) = p k v + weigh p rest
