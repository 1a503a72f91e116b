-- ===== src/Map/AddAt.antt =====
-- What `add` does at the owner that its first loop found.
use infos.Prelude.{ℕ, ◌<◌, ◌≡◌, refl, false, not, some, ◌∷◌, inl, inr, arith}
use infos.Map.{
  Colour, red, Tree, leaf, node, crumb, Crumbs, on_left, on_right, is_red, is_red_colour, is_some,
  zip_up, find_node, add_at, rebalance_insert,
}
use infos.Map.Contents.{inorder}
use infos.Map.Shape.{
  IsBalanced, NoRedRed, zip_up-IsBalanced, zip_up-NoRedRed, zip_up_root_black,
  parent_red_of_needs_black,
}
use infos.Map.Rebalance.{Good, rebalance_insert_lem}
use infos.Map.Owner.{Fits, IsOwner, place}

module _ {ℓ} {V : Type ℓ} where
  abbrev pub AddedAt : ℕ → V → Tree V → Crumbs V → Type ℓ
  AddedAt q w o p =
      (t : Tree V) × (add_at q w o p ≡ some (t, not (is_some (find_node q o))))
      × NoRedRed t
      × IsBalanced t
      × (is_red t ≡ false)
      × (inorder t ≡ inorder (zip_up (place q w o) p))

  -- A red node without children is where the loop may start.
  Good-left :
      {q : ℕ} {w : V} {c : Colour} {k : ℕ} {v : V} {r : Tree V} {p : Crumbs V}
      → Fits (node c leaf k v r) p
      → Good (node red leaf q w leaf) (crumb on_left c k v r ∷ p)
  Good-left f = ground arith

  Good-right :
      {q : ℕ} {w : V} {c : Colour} {k : ℕ} {v : V} {l : Tree V} {p : Crumbs V}
      → Fits (node c l k v leaf) p
      → Good (node red leaf q w leaf) (crumb on_right c k v l ∷ p)
  Good-right f = record {
    focus_red = refl;
    inside = ground arith;
    level = ground arith;
    level_around = (f.level.0, f.level.1, rw f.level.0 at f.level_around);
    around = ground arith;
  }

  add_at_left :
      (q : ℕ) (w : V) (c : Colour) (k : ℕ) (v : V) (r : Tree V) (p : Crumbs V) (t : Tree V)
      → q < k
      → rebalance_insert (node red leaf q w leaf) (crumb on_left c k v r ∷ p) ≡ some t
      → add_at q w (node c leaf k v r) p ≡ some (t, not (is_some (find_node q (node c leaf k v r))))
  unfolding add_at find_node
  add_at_left q w c k v r p t lt e = ground arith

  add_at_right :
      (q : ℕ) (w : V) (c : Colour) (l : Tree V) (k : ℕ) (v : V) (p : Crumbs V) (t : Tree V)
      → k < q
      → rebalance_insert (node red leaf q w leaf) (crumb on_right c k v l ∷ p) ≡ some t
      → add_at q w (node c l k v leaf) p ≡ some (t, not (is_some (find_node q (node c l k v leaf))))
  unfolding add_at find_node
  add_at_right q w c l k v p t lt e = ground arith

  place_left :
      (q : ℕ) (w : V) (c : Colour) (k : ℕ) (v : V) (r : Tree V)
      → q < k
      → place q w (node c leaf k v r) ≡ node c (node red leaf q w leaf) k v r
  unfolding place
  place_left q w c k v r lt = ground arith

  place_right :
      (q : ℕ) (w : V) (c : Colour) (l : Tree V) (k : ℕ) (v : V)
      → k < q
      → place q w (node c l k v leaf) ≡ node c l k v (node red leaf q w leaf)
  unfolding place
  place_right q w c l k v lt = ground arith

  pub add_at_lem :
      (q : ℕ) (w : V) (o : Tree V) (p : Crumbs V) → IsOwner q o → Fits o p → AddedAt q w o p
  unfolding add_at place find_node zip_up
  add_at_lem q w leaf p e f = absurd e
  add_at_lem q w (node c l k v r) p (inl e) f = (
    zip_up (node c l k w r) p,
    ground arith,
    zip_up-NoRedRed (node c l k w r) p f.inside f.around
        (parent_red_of_needs_black p (is_red_colour c) f.joint),
    zip_up-IsBalanced (node c l k w r) p f.level f.level_around,
    zip_up_root_black (node c l k w r) p f.around f.joint,
    ground arith,
  )
  add_at_lem q w (node c leaf k v r) p (inr (inl (lt, e))) f =
      let (t, ends, ok, level, root, same) =
        rebalance_insert_lem (node red leaf q w leaf) (crumb on_left c k v r ∷ p) (Good-left f) in
      (t, add_at_left q w c k v r p t lt ends, ok, level, root, rw (place_left q w c k v r lt) same)
  add_at_lem q w (node c (node _ _ _ _ _) k v r) p (inr (inl (lt, e))) f = cc
  add_at_lem q w (node c l k v leaf) p (inr (inr (lt, e))) f =
      let (t, ends, ok, level, root, same) =
        rebalance_insert_lem (node red leaf q w leaf) (crumb on_right c k v l ∷ p) (Good-right f) in
      (
        t,
        add_at_right q w c l k v p t lt ends,
        ok,
        level,
        root,
        rw (place_right q w c l k v lt) same,
      )
  add_at_lem q w (node c l k v (node _ _ _ _ _)) p (inr (inr (lt, e))) f = cc
