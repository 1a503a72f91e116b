-- ===== src/Map/Laws.antt =====
-- The map's invariant, and what each operation promises: a map is a sorted list of its entries.
use infos.Prelude.{
  ℕ, ◌+◌, ◌%◌, ◌^◌, ◌≡◌, refl, sym, ap, ◌∙◌, false, not, Option, some, none, [], ◌==◌,
  if◌then◌else◌, arith, length,
}
use infos.Map.{
  Tree, leaf, node, is_red, is_leaf, is_some, zip_up, find_owner, find_node, add_at, Map, add,
  empty, try_get_value,
}
use infos.Map.Contents.{
  inorder, insert, lookup, IsSorted, insert-IsSorted, lookup-insert, length-insert,
  find_node-eq-lookup,
}
use infos.Map.Shape.{IsBalanced, NoRedRed}
use infos.Map.AddAt.{add_at_lem}
use infos.Map.Owner.{
  Fits, find_owner-Fits, find_owner-IsOwner, zip_up-place, inorder-place, find_node-find_owner,
}

module _ {ℓ} {V : Type ℓ} where
  pub record IsValid (m : Map V) : Type 0 where
    pub sorted : IsSorted (inorder m.root)
    pub no_red_red : NoRedRed m.root
    pub balanced : IsBalanced m.root
    pub root_black : is_red m.root ≡ false
    pub counted : m.count ≡ length (inorder m.root) % 2 ^ 32

  abbrev pub Added : Map V → ℕ → V → Type ℓ
  Added m q w =
      (m' : Map V) × (add m q w ≡ some m')
      × IsValid m'
      × (inorder m'.root ≡ insert q w (inorder m.root))

  add_to_empty : (q : ℕ) (w : V) (n : ℕ) → n ≡ 0 → Added (record { root = leaf; count = n }) q w
  unfolding add insert add_at find_owner
  add_to_empty q w n e = (_, refl, ground arith, refl)

  root-Fits : {t : Tree V} {n : ℕ} → IsValid (record { root = t; count = n }) → Fits t []
  root-Fits valid = ground arith

  counted_step :
      (o : Option V) (n len len' : ℕ)
      → n ≡ len % 2 ^ 32
      → len' ≡ (if is_some o then len else len + 1)
      → (if not (is_some o) then (n + 1) % 2 ^ 32 else n) ≡ len' % 2 ^ 32
  counted_step none n len len' e e' = omega arith
  counted_step (some v) n len len' e e' = omega arith

  counted_after :
      (q : ℕ) (w : V) (t : Tree V) (n : ℕ)
      → IsValid (record { root = t; count = n })
      → (t' : Tree V) → inorder t' ≡ insert q w (inorder t)
      → (if not (is_some (find_node q (find_owner q t []).0)) then (n + 1) % 2 ^ 32 else n)
        ≡ length (inorder t') % 2 ^ 32
  counted_after q w t n valid t' e =
      rw (e, find_node-find_owner q t [], find_node-eq-lookup q t valid.sorted)
        (counted_step (lookup q (inorder t)) n _ _ valid.counted
          (length-insert q w (inorder t) valid.sorted))

  add_to_node :
      (q : ℕ) (w : V) (t : Tree V) (n : ℕ)
      → is_leaf t ≡ false
      → IsValid (record { root = t; count = n })
      → Added (record { root = t; count = n }) q w
  unfolding add zip_up
  add_to_node q w t n e valid =
      let (t', ends, ok, level, root, same) =
        add_at_lem q w (find_owner q t []).0 (find_owner q t []).1 (find_owner-IsOwner q t [] e)
          (find_owner-Fits q t [] (root-Fits valid)) in
      let contents : inorder t' ≡ insert q w (inorder t) =
        same ∙ ap inorder (zip_up-place q w t []) ∙ inorder-place q w t valid.sorted in
      let b = not (is_some (find_node q (find_owner q t []).0)) in
      (
        record { root = t'; count = if b then (n + 1) % 2 ^ 32 else n },
        rw ends,
        record {
          sorted = rw contents (insert-IsSorted q w (inorder t) valid.sorted);
          no_red_red = ok;
          balanced = level;
          root_black = root;
          counted = counted_after q w t n valid t' contents;
        },
        contents,
      )

  -- `add` ends without a fault, keeps the invariant, and inserts into the sorted list of entries.
  pub add_refines : (m : Map V) (q : ℕ) (w : V) → IsValid m → Added m q w
  add_refines m q w valid = go m.root m.count valid
    where
      go :
          (t : Tree V) (n : ℕ)
          → IsValid (record { root = t; count = n })
          → Added (record { root = t; count = n }) q w
      go leaf n v = add_to_empty q w n v.counted
      go (node c l k x r) n v = add_to_node q w (node c l k x r) n refl v

  pub empty-IsValid : IsValid empty
  unfolding empty
  empty-IsValid = record {
    sorted = tt;
    no_red_red = tt;
    balanced = tt;
    root_black = refl;
    counted = refl;
  }

  -- Reading after `add`: the new value at its key, and every other key as it was.
  pub try_get_value-add :
      (m : Map V) (q j : ℕ) (w : V) {m' : Map V}
      → IsValid m
      → add m q w ≡ some m'
      → try_get_value m' j ≡ (if q == j then some w else try_get_value m j)
  unfolding try_get_value
  try_get_value-add m q j w {m'} valid e =
      let (m'', ends, valid', contents) = add_refines m q w valid in
      let same : m' ≡ m'' = ground (arith, ends) in
      rw same (
        find_node-eq-lookup j m''.root valid'.sorted
        ∙ ap (lookup j) contents
        ∙ lookup-insert q j w (inorder m.root) valid.sorted
        ∙ ap (λ o. if q == j then some w else o) (sym (find_node-eq-lookup j m.root valid.sorted)))
