-- ===== src/LinkedList.antt =====
-- include/infos/util/list.h: the singly linked list with a cached count. The chain of nodes is the
-- sequence of their data; a loop over `Node **slot` is a recursion on what follows the slot.
-- `none` is a failed `assert`.
pub mod Laws
use infos.Prelude.{
  ℕ, zero, suc, ◌+◌, ◌-◌, ◌%◌, ◌^◌, Bool, true, false, Option, none, some, List, [], ◌∷◌, ◌++◌,
  ◌==◌, if◌then◌else◌,
}

pub record LinkedList {ℓ} (A : Type ℓ) : Type ℓ where
  pub elems : List A
  pub count : ℕ  -- unsigned int

-- `_count++` and `_count--` wrap.
abbrev pub inc32 : ℕ → ℕ
inc32 n = (n + 1) % 2 ^ 32

abbrev pub dec32 : ℕ → ℕ
dec32 n = (n + (2 ^ 32 - 1)) % 2 ^ 32

module _ {ℓ} {A : Type ℓ} where
  unfoldable pub new : LinkedList A
  new = record { elems = []; count = 0 }

  -- The walk to the last slot, and the new node in it.
  unfoldable pub append_node : A → List A → List A
  append_node a [] = a ∷ []
  append_node a (x ∷ xs) = x ∷ append_node a xs

  unfoldable pub append : A → LinkedList A → LinkedList A
  unfolding append_node
  append a l = record { elems = append_node a l.elems; count = inc32 l.count }

  unfoldable pub enqueue : A → LinkedList A → LinkedList A
  unfolding append
  enqueue a l = append a l

  -- The walk to the first slot that holds `a`, and what is left without its node.
  unfoldable pub unlink : (A → A → Bool) → A → List A → Option (List A)
  unlink eq a [] = none
  unlink eq a (x ∷ xs) =
      if eq x a then some xs else (elim (unlink eq a xs) [ none ↦ none | some ys ↦ some (x ∷ ys) ])

  unfoldable pub remove : (A → A → Bool) → A → LinkedList A → LinkedList A
  unfolding unlink
  remove eq a l = elim (unlink eq a l.elems) [
    | none ↦ l
    | some xs ↦ record { elems = xs; count = dec32 l.count }
  ]

  dequeue_node : List A → ℕ → Option (A × LinkedList A)
  dequeue_node [] n = none
  dequeue_node (x ∷ xs) n = some (x, record { elems = xs; count = dec32 n })

  unfoldable pub dequeue : LinkedList A → Option (A × LinkedList A)
  unfolding dequeue_node
  dequeue l = dequeue_node l.elems l.count

  unfoldable pub pop : LinkedList A → Option (A × LinkedList A)
  unfolding dequeue
  pop l = dequeue l

  unfoldable pub push : A → LinkedList A → LinkedList A
  push a l = record { elems = a ∷ l.elems; count = inc32 l.count }

  first_node : List A → Option A
  first_node [] = none
  first_node (x ∷ xs) = some x

  unfoldable pub first : LinkedList A → Option A
  unfolding first_node
  first l = first_node l.elems

  -- The walk of `last` from a node that is there.
  last_node : A → List A → A
  last_node x [] = x
  last_node x (y ∷ ys) = last_node y ys

  last_of : List A → Option A
  unfolding last_node
  last_of [] = none
  last_of (x ∷ xs) = some (last_node x xs)

  unfoldable pub last : LinkedList A → Option A
  unfolding last_of
  last l = last_of l.elems

  -- The walk of `at`, with `index - ctr` for `index`.
  at_node : List A → ℕ → Option A
  at_node [] i = none
  at_node (x ∷ xs) zero = some x
  at_node (x ∷ xs) (suc i) = at_node xs i

  unfoldable pub at : LinkedList A → ℕ → Option A
  unfolding at_node
  at l i = at_node l.elems i

  unfoldable pub is_empty : LinkedList A → Bool
  is_empty l = l.count == 0

  unfoldable pub clear : LinkedList A → LinkedList A
  clear l = record { elems = []; count = 0 }

  copy_onto : List A → LinkedList A → LinkedList A
  unfolding append
  copy_onto [] l = l
  copy_onto (x ∷ xs) l = copy_onto xs (append x l)

  -- The copy constructor.
  unfoldable pub copy : LinkedList A → LinkedList A
  unfolding copy_onto new
  copy r = copy_onto r.elems new
