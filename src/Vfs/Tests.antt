-- ===== src/Vfs/Tests.antt =====
-- The virtual file system at concrete states.
use infos.Prelude.{
  ℕ, zero, suc, ◌<◌, ◌≡◌, refl, true, false, Option, some, none, [], ◌∷◌, ◌++◌, length, get_elem?,
  ◌==◌, some_inverse, parts_of, arith,
}
use infos.Map
use infos.Map.{Map, try_get_value, find_node, node, leaf, black}
use infos.Strings.{get_hash, strncmp}
use infos.Vfs.{
  VfsNode, Vfs, PfsNode, root_node, temp_node, init, new_pnode, new_vnode, hash_of, get_child,
  mkdir, mount, lookup_node, open_path, start_filesystems, tmpfs, root_of, name_tmpfs, name_dev,
  lookup_fs,
}
use infos.Vfs.Paths.{leading, walk, lookup_node-walk}
use infos.Vfs.Sound.{
  IsTable, IsPfsNode, IsVfsNode, IsVfs, empty-IsTable, new_pnode-IsVfs, put_vnode-IsVfs,
}
use infos.Vfs.Children.{Grown, Gives, get_child_lem}
use infos.Vfs.Making.{mkdir_again, mount_lem, init-IsVfs}
use infos.Vfs.Lookups.{lookup_node_lem}
use infos.Vfs.Boot.{registered, file_of, open_path-start_filesystems}

abbrev fresh : Vfs
fresh = init Map.empty

-- "/a//b" is looked up as "/a".
leading-parts : leading (parts_of 47 (97 ∷ 47 ∷ 47 ∷ 98 ∷ [])) ≡ (97 ∷ []) ∷ []
leading-parts = refl

lookup_node-walk_example :
    (lookup_node (47 ∷ 97 ∷ 47 ∷ 98 ∷ []) fresh ≡ walk 0 ((97 ∷ []) ∷ (98 ∷ []) ∷ []) fresh)
    × ((c : ℕ) → (c == 47) ≡ false → lookup_node (c ∷ 97 ∷ 47 ∷ 98 ∷ []) fresh ≡ some (none, fresh))
    × (lookup_node [] fresh ≡ some (none, fresh))
lookup_node-walk_example = lookup_node-walk (97 ∷ 47 ∷ 98 ∷ []) fresh

get_child_lem_example : Gives fresh (get_child 0 (97 ∷ []) fresh) 0 (97 ∷ [])
get_child_lem_example = get_child_lem 0 (97 ∷ []) fresh (init-IsVfs Map.empty) (omega arith)

-- A tmpfs at the root.
abbrev over_tmpfs : VfsNode
over_tmpfs = new_vnode none (some 1)

abbrev with_tmpfs : Vfs
with_tmpfs = record {
  vnodes = over_tmpfs ∷ [];
  pnodes = root_node ∷ temp_node [] Map.empty ∷ [];
  devices = Map.empty;
}

with_tmpfs-IsVfs : IsVfs with_tmpfs
with_tmpfs-IsVfs =
    put_vnode-IsVfs 0 over_tmpfs (new_vnode none (some 0))
      (new_pnode (temp_node [] Map.empty) fresh) refl
      (record { table = empty-IsTable 1; over = λ p h. ground arith })
      (new_pnode-IsVfs (temp_node [] Map.empty) fresh (empty-IsTable 2) (init-IsVfs Map.empty))

empty_unknown : (h : ℕ) → try_get_value (Map.empty {V = ℕ}) h ≡ none
unfolding try_get_value Map.empty
empty_unknown h = refl

lookup_fs-tmpfs : lookup_fs registered name_tmpfs ≡ some (some tmpfs)
unfolding lookup_fs strncmp
lookup_fs-tmpfs = refl

mount_lem_example :
    (s' : Vfs) × (mount registered 0 name_tmpfs fresh ≡ some (true, s'))
    × IsVfs s'
    × (get_elem? s'.vnodes 0 ≡ some (record { parent = none; pn = some 1; children = Map.empty }))
    × (get_elem? s'.pnodes 1 ≡ some (root_of tmpfs))
mount_lem_example =
    mount_lem registered 0 (new_vnode none (some 0)) name_tmpfs tmpfs fresh (init-IsVfs Map.empty)
      lookup_fs-tmpfs refl

open_path-start_filesystems_example :
    (s : Vfs) × (s' : Vfs) × (start_filesystems registered (init Map.empty) ≡ some (true, s))
    × (open_path (λ d. some d) (47 ∷ name_dev ++ 47 ∷ 97 ∷ []) s
        ≡ some (file_of (λ d. some d) (try_get_value Map.empty (hash_of (97 ∷ []))), s'))
open_path-start_filesystems_example =
    open_path-start_filesystems (λ d. some d) Map.empty (97 ∷ []) refl (omega arith) (omega arith)

lookup_node_lem_example :
    (r : Option ℕ) × (s' : Vfs) × (lookup_node (47 ∷ 97 ∷ []) with_tmpfs ≡ some (r, s'))
    × IsVfs s'
    × Grown with_tmpfs s'
    × ((c : ℕ) (later : Vfs)
        → r ≡ some c
        → Grown s' later
        → (c < length s'.vnodes) × (lookup_node (47 ∷ 97 ∷ []) later ≡ some (some c, later)))
lookup_node_lem_example = lookup_node_lem (97 ∷ []) with_tmpfs with_tmpfs-IsVfs (omega arith, tt)

-- A node that keeps a child under "a", over a directory that has one of that name.
abbrev hash_a : ℕ
hash_a = 12638187200555641996

abbrev one_child : ℕ → Map ℕ
one_child c = record { root = node black leaf hash_a c leaf; count = 1 }

one_child-IsTable : (n c : ℕ) → c < n → IsTable n (one_child c)
unfolding try_get_value find_node
one_child-IsTable n c h = record {
  valid = record {
    sorted = omega arith;
    no_red_red = (refl, tt, tt);
    balanced = (refl, tt, tt);
    root_black = refl;
    counted = refl;
  };
  inside = λ k d e. ground (arith, e);
}

abbrev keeps_a : VfsNode
keeps_a = record { parent = none; pn = some 1; children = one_child 1 }

abbrev with_a : Vfs
with_a = record {
  vnodes = keeps_a ∷ new_vnode (some 0) (some 2) ∷ [];
  pnodes = root_node ∷ temp_node [] (one_child 2) ∷ temp_node (97 ∷ []) Map.empty ∷ [];
  devices = Map.empty;
}

with_a_vnode : (v : ℕ) (n : VfsNode) → get_elem? with_a.vnodes v ≡ some n → IsVfsNode 2 3 n
with_a_vnode zero n e =
    rw (← some_inverse e)
      (record { table = one_child-IsTable 2 1 (omega arith); over = λ p h. ground (arith, h) })
with_a_vnode (suc zero) n e =
    rw (← some_inverse e) (record { table = empty-IsTable 2; over = λ p h. ground (arith, h) })
with_a_vnode (suc (suc v)) n e = cc

with_a_pnode : (p : ℕ) (n : PfsNode) → get_elem? with_a.pnodes p ≡ some n → IsPfsNode 3 n
with_a_pnode zero n e = rw (← some_inverse e) tt
with_a_pnode (suc zero) n e = rw (← some_inverse e) (one_child-IsTable 3 2 (omega arith))
with_a_pnode (suc (suc zero)) n e = rw (← some_inverse e) (empty-IsTable 3)
with_a_pnode (suc (suc (suc p))) n e = cc

with_a-IsVfs : IsVfs with_a
with_a-IsVfs = record { root = omega arith; vnode = with_a_vnode; pnode = with_a_pnode }

keeps_a_known : try_get_value (one_child 1) (hash_of (97 ∷ [])) ≡ some 1
unfolding try_get_value get_hash
keeps_a_known = refl

mkdir_again_example :
    (children' : Map ℕ) × (s' : Vfs) × (mkdir 0 (97 ∷ []) with_a ≡ some (some 1, s'))
    × (s'.vnodes ≡ with_a.vnodes)
    × (get_elem? s'.pnodes 1 ≡ some (temp_node [] children'))
    × (get_elem? s'.pnodes 3 ≡ some (temp_node (97 ∷ []) Map.empty))
    × (try_get_value children' (hash_of (97 ∷ [])) ≡ some 3)
mkdir_again_example =
    mkdir_again 0 keeps_a (97 ∷ []) 1 [] (one_child 2) 1 with_a with_a-IsVfs refl refl refl
      keeps_a_known
