-- ===== src/Map.antt =====
-- include/infos/util/map.h: the red-black tree map. A pointer into the tree, whose node has a
-- `Parent`, is a subtree with the list of the steps that lead from it up to the root (a zipper), so
-- that writes through `parent()`, `grandparent()` and `left(n)` are writes to the nearest steps.
-- Keys are the 64-bit integers of every instance in the kernel. `none` is a fault: a failed
-- `assert`, a null pointer that is followed, or fuel that ran out.
pub mod Contents
pub mod Shape
pub mod Rebalance
pub mod Owner
pub mod AddAt
pub mod Laws
pub mod Runs
pub mod Height
pub mod Iterator
mod Tests
use infos.Prelude.{
  ℕ, zero, suc, ◌+◌, ◌%◌, ◌^◌, Bool, true, false, Option, none, some, List, [], ◌∷◌, ltb, ◌==◌,
  if◌then◌else◌, length, ◌>>=◌,
}

pub data Colour : Type 0 where
  red black : Colour

-- A node and its children; `leaf` is the null pointer.
pub data Tree {ℓ} (V : Type ℓ) : Type ℓ where
  leaf : Tree V
  node : Colour → Tree V → ℕ → V → Tree V → Tree V

pub data Side : Type 0 where
  on_left on_right : Side

-- A parent: on which side of it the child hangs, its colour, key and value, and its other child.
pub data Crumb {ℓ} (V : Type ℓ) : Type ℓ where
  crumb : Side → Colour → ℕ → V → Tree V → Crumb V

-- The steps from a node up to the root, the parent first.
abbrev pub Crumbs {ℓ} : Type ℓ → Type ℓ
Crumbs V = List (Crumb V)

-- `red()`
abbrev pub is_red_colour : Colour → Bool
is_red_colour red = true
is_red_colour black = false

module _ {ℓ} {V : Type ℓ} where
  abbrev pub is_some : Option V → Bool
  is_some none = false
  is_some (some _) = true

  -- `y && y->red()`
  abbrev pub is_red : Tree V → Bool
  is_red leaf = false
  is_red (node c _ _ _ _) = is_red_colour c

  abbrev pub is_leaf : Tree V → Bool
  is_leaf leaf = true
  is_leaf (node _ _ _ _ _) = false

  -- `n->Colour = c` where `n` is no null pointer.
  abbrev pub paint : Colour → Tree V → Tree V
  paint c leaf = leaf
  paint c (node _ l k v r) = node c l k v r

  -- The parent's node with `x` as its child.
  abbrev pub hang : Crumb V → Tree V → Tree V
  hang (crumb on_left c k v s) x = node c x k v s
  hang (crumb on_right c k v s) x = node c s k v x

  -- The whole tree around a node.
  unfoldable pub zip_up : Tree V → Crumbs V → Tree V
  zip_up x [] = x
  zip_up x (p ∷ path) = zip_up (hang p x) path

  unfoldable pub rotate_right : Tree V → Option (Tree V)
  rotate_right (node c (node pc pl pk pv pr) k v r) = some (node pc pl pk pv (node c pr k v r))
  rotate_right _ = none

  unfoldable pub rotate_left : Tree V → Option (Tree V)
  rotate_left (node c l k v (node pc pl pk pv pr)) = some (node pc (node c l k v pl) pk pv pr)
  rotate_left _ = none

  abbrev down_left : Tree V → Crumbs V → Option (Tree V × Crumbs V)
  down_left leaf path = none
  down_left (node c l k v r) path = some (l, crumb on_left c k v r ∷ path)

  abbrev down_right : Tree V → Crumbs V → Option (Tree V × Crumbs V)
  down_right leaf path = none
  down_right (node c l k v r) path = some (r, crumb on_right c k v l ∷ path)

  -- `x = x->parent(); rotate_left(x);` if `x` is a right child: the tree at the parent's place, with
  -- the new `x` as its left child.
  abbrev straighten_left : Side → Tree V → Option (Tree V)
  unfolding rotate_left
  straighten_left on_left t = some t
  straighten_left on_right t = rotate_left t

  abbrev straighten_right : Side → Tree V → Option (Tree V)
  unfolding rotate_right
  straighten_right on_right t = some t
  straighten_right on_left t = rotate_right t

  -- The black-uncle branch: straighten, recolour, rotate at the grandparent, and return to `x`.
  unfoldable pub rotate_at_left :
      Side → Tree V → ℕ → V → Tree V → Crumbs V → Option (Tree V × Crumbs V)
  unfolding straighten_left rotate_right
  rotate_at_left side parent gk gv y path = do
    t ← straighten_left side parent
    t' ← rotate_right (node red (paint black t) gk gv y)
    down_left t' path

  unfoldable pub rotate_at_right :
      Side → Tree V → ℕ → V → Tree V → Crumbs V → Option (Tree V × Crumbs V)
  unfolding straighten_right rotate_left
  rotate_at_right side parent gk gv y path = do
    t ← straighten_right side parent
    t' ← rotate_left (node red y gk gv (paint black t))
    down_right t' path

  -- One round of the loop, at a node whose parent is red.
  unfoldable pub rebalance_step : Tree V → Crumbs V → Option (Tree V × Crumbs V)
  unfolding rotate_at_left rotate_at_right
  rebalance_step x (crumb side c k v s ∷ crumb on_left gc gk gv y ∷ path) =
      if is_red y
      then some (node red (hang (crumb side black k v s) x) gk gv (paint black y), path)
      else rotate_at_left side (hang (crumb side c k v s) x) gk gv y path
  rebalance_step x (crumb side c k v s ∷ crumb on_right gc gk gv y ∷ path) =
      if is_red y
      then some (node red (paint black y) gk gv (hang (crumb side black k v s) x), path)
      else rotate_at_right side (hang (crumb side c k v s) x) gk gv y path
  rebalance_step x _ = none

  -- `x->parent() && x->parent()->red()`
  abbrev pub parent_red : Crumbs V → Bool
  parent_red [] = false
  parent_red (crumb _ c _ _ _ ∷ _) = is_red_colour c

  unfoldable pub rebalance_loop : ℕ → Tree V → Crumbs V → Option (Tree V)
  unfolding rebalance_step zip_up
  rebalance_loop zero x path = none
  rebalance_loop (suc fuel) x path = elim (parent_red path) [
    | false ↦ some (zip_up x path)
    | true ↦ elim (rebalance_step x path) [
      | none ↦ none
      | some (x', path') ↦ rebalance_loop fuel x' path'
    ]
  ]

  -- The whole tree afterwards. A round brings `x` nearer to the root, so the depth bounds the rounds.
  unfoldable pub rebalance_insert : Tree V → Crumbs V → Option (Tree V)
  unfolding rebalance_loop
  rebalance_insert nw path = do
    root ← rebalance_loop (suc (length path)) (paint red nw) path
    some (paint black root)

  -- The first loop of `add`: the node at which it stops, in a tree that is not empty.
  unfoldable pub find_owner : ℕ → Tree V → Crumbs V → Tree V × Crumbs V
  find_owner q leaf path = (leaf, path)
  find_owner q (node c l k v r) path =
      if ltb q k
      then elim (is_leaf l) [
        | true ↦ (node c l k v r, path)
        | false ↦ find_owner q l (crumb on_left c k v r ∷ path)
      ]
      else if ltb k q
      then elim (is_leaf r) [
        | true ↦ (node c l k v r, path)
        | false ↦ find_owner q r (crumb on_right c k v l ∷ path)
      ]
      else (node c l k v r, path)

  -- The walk of `contains_key`, `try_get_value` and `get_value`.
  unfoldable pub find_node : ℕ → Tree V → Option V
  find_node q leaf = none
  find_node q (node c l k v r) =
      if ltb q k then find_node q l else if ltb k q then find_node q r else some v

  -- What `add` does at the owner: the new root, and whether a node was made.
  unfoldable pub add_at : ℕ → V → Tree V → Crumbs V → Option (Tree V × Bool)
  add_at q w leaf path = some (node black leaf q w leaf, true)
  add_at q w (node c l k v r) path =
      if q == k then some (zip_up (node c l k w r) path, false) else (do
        root ←
            rebalance_insert (node red leaf q w leaf)
              ((if ltb q k then crumb on_left c k v r else crumb on_right c k v l) ∷ path)
        some (root, true))

pub record Map {ℓ} (V : Type ℓ) : Type ℓ where
  pub root : Tree V
  pub count : ℕ  -- unsigned int

module _ {ℓ} {V : Type ℓ} where
  unfoldable pub empty : Map V
  empty = record { root = leaf; count = 0 }

  unfoldable pub add : Map V → ℕ → V → Option (Map V)
  add m q w = do
    let owner = find_owner q m.root []
    (root, grown) ← add_at q w owner.0 owner.1
    some (record { root = root; count = if grown then (m.count + 1) % 2 ^ 32 else m.count })

  unfoldable pub clear : Map V → Map V
  unfolding empty
  clear m = empty

  unfoldable pub try_get_value : Map V → ℕ → Option V
  unfolding find_node
  try_get_value m q = find_node q m.root

  unfoldable pub contains_key : Map V → ℕ → Bool
  unfolding find_node
  contains_key m q = is_some (find_node q m.root)
