-- ===== src/Vfs/Paths.antt =====
-- `lookup_node` as a walk along the names of a path.
use infos.Prelude.{
  ℕ, zero, suc, ◌+◌, ◌≤◌, ◌<◌, ◌≡◌, refl, sym, ap, ◌∙◌, Bool, true, false, Option, none, some, List,
  [], ◌∷◌, ltb, ◌==◌, ◌>>=◌, ◌>>◌, assert, length, parts_of, Bool-cases, inl, inr, arith,
}
use infos.Vfs.{Vfs, get_child, take_component, lookup_component, lookup_from, lookup_node}

-- The parts before the first empty one.
abbrev pub leading : List (List ℕ) → List (List ℕ)
leading [] = []
leading ([] ∷ parts) = []
leading ((c ∷ part) ∷ parts) = (c ∷ part) ∷ leading parts

-- The children with these names, one below the other.
unfoldable pub walk : ℕ → List (List ℕ) → Vfs → Option (Option ℕ × Vfs)
walk node [] s = some (some node, s)
walk node (name ∷ names) s = do
  assert (ltb (length name) 256)
  (child, s') ← get_child node name s
  elim child [ none ↦ some (none, s') | some next ↦ walk next names s' ]

first_part :
    (path : List ℕ)
    → (tail : List (List ℕ)) × (parts_of 47 path ≡ (take_component path).0 ∷ tail)
      × (leading tail ≡ leading (parts_of 47 (take_component path).1))
unfolding take_component
first_part [] = ([], refl, refl)
first_part (c ∷ path) =
    let (tail, e, e') = first_part path in
    elim (Bool-cases (c == 47)) [
      | inl slash ↦ (parts_of 47 path, rw slash refl, rw slash refl)
      | inr other ↦ (tail, ground (arith, e), ground (arith, e'))
    ]

leading-take_component :
    (path : List ℕ)
    → leading (parts_of 47 path)
      ≡ leading ((take_component path).0 ∷ parts_of 47 (take_component path).1)
leading-take_component path =
    let (tail, e, e') = first_part path in
    ap leading e ∙ same_leading (take_component path).0 tail _ e'
  where
    same_leading :
        (part : List ℕ) (xs ys : List (List ℕ))
        → leading xs ≡ leading ys
        → leading (part ∷ xs) ≡ leading (part ∷ ys)
    same_leading [] xs ys h = refl
    same_leading (c ∷ part) xs ys h = ap (λ rest. (c ∷ part) ∷ rest) h

length-take_component :
    (path : List ℕ) → length (take_component path).0 + length (take_component path).1 ≤ length path
unfolding take_component
length-take_component [] = omega arith
length-take_component (c ∷ path) = ground (arith, length-take_component path)

-- A step to a child, and what goes on there.
abbrev step_to :
    Bool → Option (Option ℕ × Vfs) → (ℕ → Vfs → Option (Option ℕ × Vfs)) → Option (Option ℕ × Vfs)
step_to fits found next = do
  assert fits
  (child, s') ← found
  elim child [ none ↦ some (none, s') | some node ↦ next node s' ]

step_to_same :
    (fits : Bool) (found : Option (Option ℕ × Vfs)) (f g : ℕ → Vfs → Option (Option ℕ × Vfs))
    → ((node : ℕ) (s : Vfs) → f node s ≡ g node s)
    → step_to fits found f ≡ step_to fits found g
step_to_same false found f g h = refl
step_to_same true none f g h = refl
step_to_same true (some (none, s)) f g h = refl
step_to_same true (some (some node, s)) f g h = h node s

module _ (next : ℕ → Vfs → Option (Option ℕ × Vfs)) (rest : List (List ℕ)) where
  lookup_component-walk :
      (component : List ℕ) (current : ℕ) (s : Vfs)
      → (0 < length component → (node : ℕ) (s' : Vfs) → next node s' ≡ walk node (leading rest) s')
      → lookup_component component current next s ≡ walk current (leading (component ∷ rest)) s
  unfolding lookup_component walk
  lookup_component-walk [] current s h = refl
  lookup_component-walk (c ∷ component) current s h =
      step_to_same (ltb (suc (length component)) 256) (get_child current (c ∷ component) s) next
        (λ node s'. walk node (leading rest) s') (λ node s'. h (omega arith) node s')

lookup_from-walk :
    (fuel current : ℕ) (path : List ℕ) (s : Vfs)
    → length path < fuel
    → lookup_from fuel current path s ≡ walk current (leading (parts_of 47 path)) s
unfolding lookup_from
lookup_from-walk zero current path s h = absurd (omega arith)
lookup_from-walk (suc fuel) current path s h =
    let rest = (take_component path).1 in
    lookup_component-walk (λ node s'. lookup_from fuel node rest s') (parts_of 47 rest)
      (take_component path).0 current s
      (λ some_chars node s'.
        lookup_from-walk fuel node rest s' (omega (arith, length-take_component path)))
    ∙ ap (λ names. walk current names s) (sym (leading-take_component path))

-- A path that starts with '/' is looked up by walking from the root along its names up to the first
-- empty one; the fuel is enough, and a name of 256 characters or more is written behind `component`.
-- Any other path is NULL.
pub lookup_node-walk :
    (path : List ℕ) (s : Vfs)
    → (lookup_node (47 ∷ path) s ≡ walk 0 (leading (parts_of 47 path)) s)
      × ((c : ℕ) → (c == 47) ≡ false → lookup_node (c ∷ path) s ≡ some (none, s))
      × (lookup_node [] s ≡ some (none, s))
unfolding lookup_node walk
lookup_node-walk path s = (from_root path, (λ c e. ground (arith, e)), refl)
  where
    from_root : (path : List ℕ) → lookup_node (47 ∷ path) s ≡ walk 0 (leading (parts_of 47 path)) s
    from_root [] = refl
    from_root (c ∷ path) = lookup_from-walk (suc (length (c ∷ path))) 0 (c ∷ path) s (omega arith)
