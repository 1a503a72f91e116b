-- ===== src/Directories/Tests.antt =====
-- A directory of two children.
use infos.Prelude.{ℕ, ◌≡◌, refl, some, List, [], ◌∷◌, arith}
use infos.LinkedList
use infos.Map.{Map, node, leaf, black, red}
use infos.Map.Contents.{inorder}
use infos.Map.Iterator.{weigh, entries}
use infos.Map.Iterator.Loop.{entries_lem}

abbrev two : Map ℕ
two = record { root = node black leaf 5 50 (node red leaf 8 80 leaf); count = 2 }

abbrev name_of : ℕ → List ℕ
name_of child = child ∷ []

entries-two : entries 4 two ≡ some ((5, 50) ∷ (8, 80) ∷ [])
unfolding entries LinkedList.new LinkedList.is_empty LinkedList.enqueue LinkedList.dequeue
entries-two = refl

entries_lem_example :
    (es : List (ℕ × ℕ)) × (entries 4 two ≡ some es)
    × ((p : ℕ → ℕ → ℕ) → weigh p es ≡ weigh p (inorder two.root))
entries_lem_example = entries_lem 4 two (omega arith) (omega arith)
