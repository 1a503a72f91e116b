-- ===== src/Map/Tests.antt =====
-- The map at concrete inputs.
use infos.Prelude.{ℕ, ◌≡◌, refl, some, List, [], ◌∷◌, ◌==◌, if◌then◌else◌, false}
use infos.Map.{
  Map, Tree, leaf, node, red, black, crumb, Crumbs, on_left, is_red, empty, add, find_owner, add_at,
  rebalance_insert, zip_up, try_get_value,
}
use infos.Map.Contents.{inorder, insert}
use infos.Map.Shape.{NoRedRed, IsBalanced}
use infos.Map.Rebalance.{Good, rebalance_insert_lem}
use infos.Map.Laws.{IsValid, add_refines, try_get_value-add}
use infos.Map.Runs.{build}
use native.Mathlib.Omega.{arith}

abbrev entries : List (ℕ × ℕ)
entries = (1, 10) ∷ (2, 20) ∷ (3, 30) ∷ (2, 21) ∷ []

three : Map ℕ
unfolding empty
three = record {
  root = node black (node red leaf 1 10 leaf) 2 21 (node red leaf 3 30 leaf);
  count = 3;
}

-- Rising keys are rotated, and the fourth call overwrites.
build-three : build entries empty ≡ some three
unfolding build empty add find_owner add_at rebalance_insert zip_up three
build-three = refl

three-IsValid : IsValid three
unfolding three
three-IsValid = ground arith

add_refines_example :
    (m : Map ℕ) × (add three 4 40 ≡ some m)
    × IsValid m
    × (inorder m.root ≡ insert 4 40 (inorder three.root))
add_refines_example = add_refines three 4 40 three-IsValid

abbrev four : Map ℕ
four = record {
  root =
      node black (node black leaf 1 10 leaf) 2 21 (node black leaf 3 30 (node red leaf 4 40 leaf));
  count = 4;
}

add-four : add three 4 40 ≡ some four
unfolding add find_owner add_at rebalance_insert zip_up three
add-four = refl

try_get_value-add_example :
    try_get_value four 3 ≡ (if ◌==◌ 4 3 then some 40 else try_get_value three 3)
try_get_value-add_example = try_get_value-add three 4 3 40 three-IsValid add-four

abbrev low : Tree ℕ
low = node red leaf 1 10 leaf

abbrev above_low : Crumbs ℕ
above_low = crumb on_left red 2 20 leaf ∷ crumb on_left black 3 30 leaf ∷ []

low-Good : Good low above_low
low-Good = ground arith

rebalance_insert_lem_example :
    (t : Tree ℕ) × (rebalance_insert low above_low ≡ some t)
    × NoRedRed t
    × IsBalanced t
    × (is_red t ≡ false)
    × (inorder t ≡ inorder (zip_up low above_low))
rebalance_insert_lem_example = rebalance_insert_lem low above_low low-Good
