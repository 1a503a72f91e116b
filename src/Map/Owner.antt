-- ===== src/Map/Owner.antt =====
-- Where the first loop of `add` stops, and what hanging a node there does to the whole tree.
use infos.Prelude.{
  ℕ, ◌<◌, ◌≡◌, refl, true, false, ◌&&◌, ◌⊎◌, ◌∷◌, ltb, ◌==◌, Bool-cases, inl, inr, arith,
}
use infos.Map.{
  Colour, red, Tree, leaf, node, crumb, Crumbs, on_left, on_right, is_red, is_leaf, zip_up,
  find_owner, find_node,
}
use infos.Map.Contents.{inorder, insert, insert_around, IsSorted, IsSorted-split}
use infos.Map.Shape.{
  IsBalanced, IsBalancedAround, NoRedRed, NoRedRedAround, needs_black, black_height,
}

module _ {ℓ} {V : Type ℓ} where
  -- A subtree and the steps around it keep every rule.
  pub record Fits (x : Tree V) (path : Crumbs V) : Type 0 where
    pub inside : NoRedRed x
    pub level : IsBalanced x
    pub level_around : IsBalancedAround (black_height x) path
    pub around : NoRedRedAround path
    pub joint : (is_red x && needs_black path) ≡ false

  Fits-left :
      {c : Colour} {l : Tree V} {k : ℕ} {v : V} {r : Tree V} {path : Crumbs V}
      → Fits (node c l k v r) path
      → Fits l (crumb on_left c k v r ∷ path)
  Fits-left f = ground arith

  Fits-right :
      {c : Colour} {l : Tree V} {k : ℕ} {v : V} {r : Tree V} {path : Crumbs V}
      → Fits (node c l k v r) path
      → Fits r (crumb on_right c k v l ∷ path)
  Fits-right f = record {
    inside = f.inside.2;
    level = f.level.2;
    level_around = (f.level.0, f.level.1, rw f.level.0 at f.level_around);
    around = ground arith;
    joint = ground arith;
  }

  pub find_owner-Fits :
      (q : ℕ) (t : Tree V) (path : Crumbs V)
      → Fits t path
      → Fits (find_owner q t path).0 (find_owner q t path).1
  unfolding find_owner
  find_owner-Fits q leaf path f = f
  find_owner-Fits q (node c l k v r) path f =
      let on_l = find_owner-Fits q l (crumb on_left c k v r ∷ path) (Fits-left f) in
      let on_r = find_owner-Fits q r (crumb on_right c k v l ∷ path) (Fits-right f) in
      elim (Bool-cases (ltb q k)) [
        | inl e ↦ elim (Bool-cases (is_leaf l)) [
          | inl e' ↦ rw (e, e', find_owner) f
          | inr e' ↦ rw (e, e', find_owner) on_l
        ]
        | inr e ↦ elim (Bool-cases (ltb k q)) [
          | inl e'' ↦ elim (Bool-cases (is_leaf r)) [
            | inl e' ↦ rw (e, e'', e', find_owner) f
            | inr e' ↦ rw (e, e'', e', find_owner) on_r
          ]
          | inr e'' ↦ rw (e, e'', find_owner) f
        ]
      ]

  -- The owner has the key, or has room for it on its side.
  abbrev pub IsOwner : ℕ → Tree V → Type 0
  IsOwner q leaf = ⊥
  IsOwner q (node _ l k _ r) =
      (q ≡ k) ⊎ (((q < k) × (is_leaf l ≡ true)) ⊎ ((k < q) × (is_leaf r ≡ true)))

  pub find_owner-IsOwner :
      (q : ℕ) (t : Tree V) (path : Crumbs V) → is_leaf t ≡ false → IsOwner q (find_owner q t path).0
  unfolding find_owner
  find_owner-IsOwner q leaf path e = cc
  find_owner-IsOwner q (node c l k v r) path e = ground (
    arith,
    find_owner-IsOwner q l (crumb on_left c k v r ∷ path),
    find_owner-IsOwner q r (crumb on_right c k v l ∷ path),
  )

  -- The insertion without any rebalancing, from the root down.
  unfoldable pub place : ℕ → V → Tree V → Tree V
  place q w leaf = node red leaf q w leaf
  place q w (node c l k v r) = elim (q == k) [
    | true ↦ node c l k w r
    | false ↦ elim (ltb q k) [
      | true ↦ node c (place q w l) k v r
      | false ↦ node c l k v (place q w r)
    ]
  ]

  pub zip_up-place :
      (q : ℕ) (w : V) (t : Tree V) (path : Crumbs V)
      → zip_up (place q w (find_owner q t path).0) (find_owner q t path).1
        ≡ zip_up (place q w t) path
  unfolding find_owner place zip_up
  zip_up-place q w leaf path = refl
  zip_up-place q w (node c l k v r) path = ground (
    arith,
    zip_up-place q w l (crumb on_left c k v r ∷ path),
    zip_up-place q w r (crumb on_right c k v l ∷ path),
  )

  -- In a sorted tree that is the insertion into the sorted list of the entries.
  pub inorder-place :
      (q : ℕ) (w : V) (t : Tree V)
      → IsSorted (inorder t)
      → inorder (place q w t) ≡ insert q w (inorder t)
  unfolding place insert
  inorder-place q w leaf s = refl
  inorder-place q w (node c l k v r) s =
      let parts = IsSorted-split (inorder l) k v (inorder r) s in
      ground (
        arith,
        insert_around q w (inorder l) k v (inorder r) s,
        inorder-place q w l parts.0,
        inorder-place q w r parts.3,
      )

  pub find_node-find_owner :
      (q : ℕ) (t : Tree V) (path : Crumbs V) → find_node q (find_owner q t path).0 ≡ find_node q t
  unfolding find_owner find_node
  find_node-find_owner q leaf path = refl
  find_node-find_owner q (node c l k v r) path = ground (
    arith,
    find_node-find_owner q l (crumb on_left c k v r ∷ path),
    find_node-find_owner q r (crumb on_right c k v l ∷ path),
  )
