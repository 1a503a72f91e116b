-- ===== src/Map/Shape.antt =====
-- The red-black rules, for a tree and for the steps around a node, and what zipping up makes of them.
use infos.Prelude.{ℕ, ◌+◌, ◌≡◌, Bool, true, false, ◌&&◌, ◌||◌, [], ◌∷◌, arith}
use infos.Map.{
  Colour, red, black, Tree, leaf, node, crumb, Crumbs, on_left, on_right, is_red_colour, is_red,
  zip_up, parent_red,
}
use infos.Map.Contents.{inorder}

abbrev pub weight : Colour → ℕ
weight red = 0
weight black = 1

module _ {ℓ} {V : Type ℓ} where
  -- Black nodes on the leftmost way down.
  abbrev pub black_height : Tree V → ℕ
  black_height leaf = 0
  black_height (node c l _ _ r) = weight c + black_height l

  -- Every way down meets as many black nodes.
  abbrev pub IsBalanced : Tree V → Type 0
  IsBalanced leaf = Unit
  IsBalanced (node c l _ _ r) = (black_height l ≡ black_height r) × IsBalanced l × IsBalanced r

  -- No red node has a red child.
  abbrev pub NoRedRed : Tree V → Type 0
  NoRedRed leaf = Unit
  NoRedRed (node c l _ _ r) =
      ((is_red_colour c && (is_red l || is_red r)) ≡ false) × NoRedRed l × NoRedRed r

  -- The steps fit around a subtree of black height `n`.
  abbrev pub IsBalancedAround : ℕ → Crumbs V → Type 0
  IsBalancedAround n [] = Unit
  IsBalancedAround n (crumb _ c _ _ s ∷ path) =
      (black_height s ≡ n) × IsBalanced s × IsBalancedAround (weight c + n) path

  -- The parent is red, or there is none.
  abbrev pub needs_black : Crumbs V → Bool
  needs_black [] = true
  needs_black (crumb _ c _ _ _ ∷ _) = is_red_colour c

  -- The steps break no rule by themselves, and the root is black.
  abbrev pub NoRedRedAround : Crumbs V → Type 0
  NoRedRedAround [] = Unit
  NoRedRedAround (crumb _ c _ _ s ∷ path) =
      ((is_red_colour c && (is_red s || needs_black path)) ≡ false)
      × NoRedRed s
      × NoRedRedAround path

  pub parent_red_of_needs_black :
      (path : Crumbs V) (b : Bool)
      → (b && needs_black path) ≡ false
      → (b && parent_red path) ≡ false
  parent_red_of_needs_black [] b e = ground arith
  parent_red_of_needs_black (crumb _ c _ _ _ ∷ _) b e = e

  pub zip_up-IsBalanced :
      (x : Tree V) (path : Crumbs V)
      → IsBalanced x
      → IsBalancedAround (black_height x) path
      → IsBalanced (zip_up x path)
  unfolding zip_up
  zip_up-IsBalanced x [] b a = b
  zip_up-IsBalanced x (crumb on_left c k v s ∷ path) b a =
      zip_up-IsBalanced (node c x k v s) path (omega arith, b, a.1) a.2
  zip_up-IsBalanced x (crumb on_right c k v s ∷ path) b a =
      zip_up-IsBalanced (node c s k v x) path (a.0, a.1, b) (rw a.0 a.2)

  pub zip_up-NoRedRed :
      (x : Tree V) (path : Crumbs V)
      → NoRedRed x
      → NoRedRedAround path
      → (is_red x && parent_red path) ≡ false
      → NoRedRed (zip_up x path)
  unfolding zip_up
  zip_up-NoRedRed x [] b a h = b
  zip_up-NoRedRed x (crumb on_left c k v s ∷ path) b a h =
      zip_up-NoRedRed (node c x k v s) path (ground arith, b, a.1) a.2
        (parent_red_of_needs_black path (is_red_colour c) (ground arith))
  zip_up-NoRedRed x (crumb on_right c k v s ∷ path) b a h =
      zip_up-NoRedRed (node c s k v x) path (ground arith, a.1, b) a.2
        (parent_red_of_needs_black path (is_red_colour c) (ground arith))

  -- Trees with the same contents have them anywhere.
  pub inorder-zip_up :
      (x y : Tree V) (path : Crumbs V)
      → inorder x ≡ inorder y
      → inorder (zip_up x path) ≡ inorder (zip_up y path)
  unfolding zip_up
  inorder-zip_up x y [] e = e
  inorder-zip_up x y (crumb on_left c k v s ∷ path) e =
      inorder-zip_up (node c x k v s) (node c y k v s) path (rw e)
  inorder-zip_up x y (crumb on_right c k v s ∷ path) e =
      inorder-zip_up (node c s k v x) (node c s k v y) path (rw e)

  -- The root stays black.
  pub zip_up_root_black :
      (x : Tree V) (path : Crumbs V)
      → NoRedRedAround path
      → (is_red x && needs_black path) ≡ false
      → is_red (zip_up x path) ≡ false
  unfolding zip_up
  zip_up_root_black x [] a e = ground arith
  zip_up_root_black x (crumb on_left c k v s ∷ path) a e =
      zip_up_root_black (node c x k v s) path a.2 (ground arith)
  zip_up_root_black x (crumb on_right c k v s ∷ path) a e =
      zip_up_root_black (node c s k v x) path a.2 (ground arith)
