-- ===== src/Map/Height.antt =====
-- How deep the walks of the map go: the red-black rules bound the depth by the number of entries.
use Prim.Native.Nat.{max}
use native.Mathlib.Nat.{pow-suc}
use infos.Prelude.{
  ℕ, suc, ◌+◌, ◌*◌, ◌^◌, ◌≤◌, ◌≡◌, arith, length, length-append, if◌then◌else◌, [], ◌∷◌,
}
use infos.Map.{
  red, black, Tree, leaf, node, is_red, Map, Crumbs, crumb, on_left, on_right, find_owner,
}
use infos.Map.Contents.{inorder}
use infos.Map.Shape.{IsBalanced, NoRedRed, black_height}
use infos.Map.Laws.{IsValid}

module _ {ℓ} {V : Type ℓ} where
  -- The longest walk from the root.
  abbrev pub depth : Tree V → ℕ
  depth leaf = 0
  depth (node _ l _ _ r) = suc (max (depth l) (depth r))

  depth-le-black_height :
      (t : Tree V)
      → IsBalanced t
      → NoRedRed t
      → depth t ≤ 2 * black_height t + (if is_red t then 1 else 0)
  depth-le-black_height leaf b n = omega arith
  depth-le-black_height (node red l k v r) b n =
      ground (arith, depth-le-black_height l b.1 n.1, depth-le-black_height r b.2 n.2)
  depth-le-black_height (node black l k v r) b n =
      ground (arith, depth-le-black_height l b.1 n.1, depth-le-black_height r b.2 n.2)

  pow-le-length : (t : Tree V) → IsBalanced t → 2 ^ black_height t ≤ length (inorder t) + 1
  pow-le-length leaf b = omega arith
  pow-le-length (node red l k v r) b =
      let e : 0 + black_height l ≡ black_height l = omega arith in
      rw (length-append, e) (omega (arith, pow-le-length l b.1))
  pow-le-length (node black l k v r) b =
      let e : 1 + black_height l ≡ suc (black_height l) = omega arith in
      rw (length-append, e, pow-suc)
        (rw b.0 (omega (arith, pow-le-length r b.2, rw b.0 at (pow-le-length l b.1))))

  length-find_owner :
      (q : ℕ) (t : Tree V) (path : Crumbs V)
      → length (find_owner q t path).1 ≤ length path + depth t
  unfolding find_owner
  length-find_owner q leaf path = omega arith
  length-find_owner q (node c l k v r) path = ground (
    arith,
    length-find_owner q l (crumb on_left c k v r ∷ path),
    length-find_owner q r (crumb on_right c k v l ∷ path),
  )

  -- In a valid map with n entries the walk of `add` takes at most 2 h steps down from the root, for
  -- some h with 2 ^ h ≤ n + 1.
  pub find_owner_bound :
      (m : Map V) (q : ℕ)
      → IsValid m
      → (h : ℕ) × (length (find_owner q m.root []).1 ≤ 2 * h)
        × (2 ^ h ≤ length (inorder m.root) + 1)
  find_owner_bound m q valid = (
    black_height m.root,
    ground (
      arith,
      length-find_owner q m.root [],
      depth-le-black_height m.root valid.balanced valid.no_red_red,
      valid.root_black,
    ),
    pow-le-length m.root valid.balanced,
  )
