-- ===== src/Map/Runs.antt =====
-- Sequences of `add`.
use infos.Prelude.{ℕ, ◌≡◌, refl, ap, ◌∙◌, Option, some, List, [], ◌∷◌, ◌>>=◌}
use infos.Map.{Map, add}
use infos.Map.Contents.{inorder, insert}
use infos.Map.Laws.{IsValid, add_refines}

module _ {ℓ} {V : Type ℓ} where
  -- Any run of `add` from the empty map.
  unfoldable pub build : List (ℕ × V) → Map V → Option (Map V)
  build [] m = some m
  build ((q, w) ∷ ops) m = do m' ← add m q w; build ops m'

  abbrev pub insert_all : List (ℕ × V) → List (ℕ × V) → List (ℕ × V)
  insert_all [] xs = xs
  insert_all ((q, w) ∷ ops) xs = insert_all ops (insert q w xs)

  -- No run faults, and every map that a run leaves is valid and holds what the list does.
  pub build_refines :
      (ops : List (ℕ × V)) (m : Map V)
      → IsValid m
      → (m' : Map V) × (build ops m ≡ some m')
        × IsValid m'
        × (inorder m'.root ≡ insert_all ops (inorder m.root))
  unfolding build
  build_refines [] m valid = (m, refl, valid, refl)
  build_refines ((q, w) ∷ ops) m valid =
      let (m', ends, valid', contents) = add_refines m q w valid in
      let (m'', ends', valid'', contents') = build_refines ops m' valid' in
      (m'', rw ends ends', valid'', contents' ∙ ap (insert_all ops) contents)
