-- ===== src/Map/Rebalance.antt =====
-- `rebalance_insert` ends without a fault, restores the red-black rules, and keeps the contents.
use infos.Prelude.{
  ℕ, zero, suc, ◌<◌, ◌≡◌, refl, ◌∙◌, true, false, some, [], ◌∷◌, length, Bool-cases, inl, inr,
  arith,
}
use mathlib.Core.List.{append_assoc}
use infos.Map.{
  red, black, Tree, leaf, node, crumb, Crumbs, Side, on_left, on_right, is_red, paint, zip_up,
  parent_red, rebalance_step, rebalance_loop, rebalance_insert,
}
use infos.Map.Contents.{inorder}
use infos.Map.Shape.{
  IsBalanced, IsBalancedAround, NoRedRed, NoRedRedAround, black_height, zip_up-IsBalanced,
  zip_up-NoRedRed, inorder-zip_up,
}

module _ {ℓ} {V : Type ℓ} where
  -- What the loop keeps: `x` is red, and only it and its parent may break a rule.
  pub record Good (x : Tree V) (path : Crumbs V) : Type 0 where
    pub focus_red : is_red x ≡ true
    pub inside : NoRedRed x
    pub level : IsBalanced x
    pub level_around : IsBalancedAround (black_height x) path
    pub around : NoRedRedAround path

  abbrev Progress : Tree V → Crumbs V → Type ℓ
  Progress x path =
      (x' : Tree V) × (path' : Crumbs V) × (rebalance_step x path ≡ some (x', path'))
      × Good x' path'
      × (inorder (zip_up x' path') ≡ inorder (zip_up x path))
      × (length path' < length path)

  step_left :
      (a : Tree V) (xk : ℕ) (xv : V) (b : Tree V) (side : Side) (k : ℕ) (v : V) (s : Tree V)
      (gk : ℕ) (gv : V) (y : Tree V) (path : Crumbs V)
      → Good (node red a xk xv b) (crumb side red k v s ∷ crumb on_left black gk gv y ∷ path)
      → Progress (node red a xk xv b) (crumb side red k v s ∷ crumb on_left black gk gv y ∷ path)
  unfolding rebalance_step zip_up
  step_left a xk xv b on_left k v s gk gv (node red yl yk yv yr) path g =
      (_, _, refl, ground arith, inorder-zip_up _ _ path refl, omega arith)
  step_left a xk xv b on_right k v s gk gv (node red yl yk yv yr) path g =
      (_, _, refl, ground arith, inorder-zip_up _ _ path refl, omega arith)
  step_left a xk xv b on_left k v s gk gv leaf path g =
      (_, _, refl, ground arith, inorder-zip_up _ _ path (simp append_assoc), omega arith)
  step_left a xk xv b on_right k v s gk gv leaf path g =
      (_, _, refl, ground arith, inorder-zip_up _ _ path (simp append_assoc), omega arith)
  step_left a xk xv b on_left k v s gk gv (node black yl yk yv yr) path g =
      (_, _, refl, ground arith, inorder-zip_up _ _ path (simp append_assoc), omega arith)
  step_left a xk xv b on_right k v s gk gv (node black yl yk yv yr) path g =
      (_, _, refl, ground arith, inorder-zip_up _ _ path (simp append_assoc), omega arith)

  step_right :
      (a : Tree V) (xk : ℕ) (xv : V) (b : Tree V) (side : Side) (k : ℕ) (v : V) (s : Tree V)
      (gk : ℕ) (gv : V) (y : Tree V) (path : Crumbs V)
      → Good (node red a xk xv b) (crumb side red k v s ∷ crumb on_right black gk gv y ∷ path)
      → Progress (node red a xk xv b) (crumb side red k v s ∷ crumb on_right black gk gv y ∷ path)
  unfolding rebalance_step zip_up
  step_right a xk xv b on_left k v s gk gv (node red yl yk yv yr) path g =
      (_, _, refl, ground arith, inorder-zip_up _ _ path refl, omega arith)
  step_right a xk xv b on_right k v s gk gv (node red yl yk yv yr) path g =
      (_, _, refl, ground arith, inorder-zip_up _ _ path refl, omega arith)
  step_right a xk xv b on_left k v s gk gv leaf path g =
      (_, _, refl, ground arith, inorder-zip_up _ _ path (simp append_assoc), omega arith)
  step_right a xk xv b on_right k v s gk gv leaf path g =
      (_, _, refl, ground arith, inorder-zip_up _ _ path (simp append_assoc), omega arith)
  step_right a xk xv b on_left k v s gk gv (node black yl yk yv yr) path g =
      (_, _, refl, ground arith, inorder-zip_up _ _ path (simp append_assoc), omega arith)
  step_right a xk xv b on_right k v s gk gv (node black yl yk yv yr) path g =
      (_, _, refl, ground arith, inorder-zip_up _ _ path (simp append_assoc), omega arith)

  -- A red parent is no root, so the grandparent that the round follows is there, and it is black.
  rebalance_step_lem :
      (x : Tree V) (path : Crumbs V) → Good x path → parent_red path ≡ true → Progress x path
  rebalance_step_lem leaf path g e = absurd (ground arith)
  rebalance_step_lem (node black a xk xv b) path g e = absurd (ground arith)
  rebalance_step_lem (node red a xk xv b) [] g e = absurd (ground arith)
  rebalance_step_lem (node red a xk xv b) (crumb side black k v s ∷ path) g e =
      absurd (ground arith)
  rebalance_step_lem (node red a xk xv b) (crumb side red k v s ∷ []) g e = absurd (ground arith)
  rebalance_step_lem (node red a xk xv b) (crumb side red k v s ∷ crumb gs red gk gv y ∷ path) g e =
      absurd (ground arith)
  rebalance_step_lem (node red a xk xv b)
        (crumb side red k v s ∷ crumb on_left black gk gv y ∷ path) g e =
      step_left a xk xv b side k v s gk gv y path g
  rebalance_step_lem (node red a xk xv b)
        (crumb side red k v s ∷ crumb on_right black gk gv y ∷ path) g e =
      step_right a xk xv b side k v s gk gv y path g

  -- What the loop returns.
  abbrev Rebalanced : ℕ → Tree V → Crumbs V → Type ℓ
  Rebalanced fuel x path =
      (t : Tree V) × (rebalance_loop fuel x path ≡ some t)
      × NoRedRed t
      × IsBalanced t
      × (inorder t ≡ inorder (zip_up x path))

  rebalance_loop_lem :
      (fuel : ℕ) (x : Tree V) (path : Crumbs V)
      → length path < fuel
      → Good x path
      → Rebalanced fuel x path
  unfolding rebalance_loop
  rebalance_loop_lem zero x path h g = absurd (omega arith)
  rebalance_loop_lem (suc fuel) x path h g = elim (Bool-cases (parent_red path)) [
    | inr e ↦ (
      zip_up x path,
      rw (e, rebalance_loop),
      zip_up-NoRedRed x path g.inside g.around (ground arith),
      zip_up-IsBalanced x path g.level g.level_around,
      refl,
    )
    | inl e ↦
        let (x', path', stepped, good, same, shorter) = rebalance_step_lem x path g e in
        let (t, ends, ok, level, contents) = rebalance_loop_lem fuel x' path' (omega arith) good in
        (t, rw (e, stepped, rebalance_loop) ends, ok, level, contents ∙ same)
  ]

  pub rebalance_insert_lem :
      (x : Tree V) (path : Crumbs V)
      → Good x path
      → (t : Tree V) × (rebalance_insert x path ≡ some t)
        × NoRedRed t
        × IsBalanced t
        × (is_red t ≡ false)
        × (inorder t ≡ inorder (zip_up x path))
  unfolding rebalance_insert
  rebalance_insert_lem x path g =
      let (t, ends, ok, level, contents) =
        rebalance_loop_lem (suc (length path)) x path (omega arith) g in
      (
        paint black t,
        rw (paint_red x g.focus_red, ends),
        paint_NoRedRed t ok,
        paint_IsBalanced t level,
        paint_is_black t,
        paint_inorder t ∙ contents,
      )
    where
      paint_red : (x : Tree V) → is_red x ≡ true → paint red x ≡ x
      paint_red leaf e = cc
      paint_red (node red l k v r) e = refl
      paint_red (node black l k v r) e = cc

      paint_NoRedRed : (t : Tree V) → NoRedRed t → NoRedRed (paint black t)
      paint_NoRedRed leaf n = tt
      paint_NoRedRed (node c l k v r) n = ground arith

      paint_IsBalanced : (t : Tree V) → IsBalanced t → IsBalanced (paint black t)
      paint_IsBalanced leaf n = tt
      paint_IsBalanced (node c l k v r) n = n

      paint_is_black : (t : Tree V) → is_red (paint black t) ≡ false
      paint_is_black leaf = refl
      paint_is_black (node c l k v r) = refl

      paint_inorder : (t : Tree V) → inorder (paint black t) ≡ inorder t
      paint_inorder leaf = refl
      paint_inorder (node c l k v r) = refl
