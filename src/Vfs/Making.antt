-- ===== src/Vfs/Making.antt =====
-- `mkdir` and `mount`.
use infos.Prelude.{
  ℕ, zero, suc, ◌+◌, ◌≡◌, refl, ap, ◌∙◌, true, Option, none, some, List, [], ◌∷◌, ◌++◌, length,
  get_elem?, set, get_elem?-set, get_elem?-append_one, length-append_one, length-set,
  set-append_one, some_inverse, lt_of_get_elem?, arith,
}
use infos.Map
use infos.Map.{Map, try_get_value}
use infos.Vfs.{
  PfsNode, root_node, temp_node, VfsNode, Vfs, hash_of, new_pnode, new_vnode, pfs_get_child,
  pfs_mkdir, attach, get_child, made_child, mkdir,
}
use infos.Vfs.Sound.{
  IsTable, add-IsTable, empty-IsTable, IsTable-grown, IsPfsNode, IsVfsNode, IsVfs, new_pnode-IsVfs,
  put_pnode-IsVfs, put_vnode-IsVfs,
}
use infos.Vfs.Children.{get_child_known, get_child_new, attach_lem, Attached-Grown, Grown}
use infos.Vfs.{
  FilesystemRegistration, FsType, rootfs, tmpfs, devfs, root_of, lookup_fs, mount, init,
}

-- `mkdir` of a tmpfs: a new directory under the hash of its name.
pub pfs_mkdir_lem :
    (p : ℕ) (own : List ℕ) (children : Map ℕ) (name : List ℕ) (s : Vfs)
    → get_elem? s.pnodes p ≡ some (temp_node own children)
    → IsVfs s
    → (children' : Map ℕ) × (s' : Vfs) × (pfs_mkdir p (temp_node own children) name s
        ≡ some (some (length s.pnodes), s'))
      × IsVfs s'
      × (s'.vnodes ≡ s.vnodes)
      × (get_elem? s'.pnodes p ≡ some (temp_node own children'))
      × (get_elem? s'.pnodes (length s.pnodes) ≡ some (temp_node name Map.empty))
      × (try_get_value children' (hash_of name) ≡ some (length s.pnodes))
unfolding pfs_mkdir
pfs_mkdir_lem p own children name s e x =
    let is = x.pnode p _ e in
    let dir = temp_node name Map.empty in
    let (children', ends, table, reads) =
      add-IsTable (length s.pnodes + 1) (hash_of name) (length s.pnodes) children (omega arith)
        (IsTable-grown _ _ children (omega arith) is) in
    let changed = temp_node own children' in
    let within = lt_of_get_elem? s.pnodes p e in
    let more = new_pnode-IsVfs dir s (empty-IsTable _) x in
    let there : get_elem? (s.pnodes ++ dir ∷ []) p ≡ some (temp_node own children) =
      ground (arith, get_elem?-append_one s.pnodes dir p, e) in
    let table' : IsTable (length (s.pnodes ++ dir ∷ [])) children' =
      rw (length-append_one s.pnodes dir) table in
    let put = put_pnode-IsVfs p changed _ (new_pnode dir s) there table' more in
    (
      children',
      new_pnode dir (record s { pnodes = set s.pnodes p changed }),
      rw ends refl,
      rw (set-append_one s.pnodes p changed dir within) put,
      refl,
      ground (
        arith,
        get_elem?-append_one (set s.pnodes p changed) dir p,
        get_elem?-set s.pnodes p p changed e,
        length-set s.pnodes p changed,
      ),
      ground (
        arith,
        get_elem?-append_one (set s.pnodes p changed) dir (length s.pnodes),
        length-set s.pnodes p changed,
      ),
      ground (arith, reads (hash_of name)),
    )

mkdir_unfolds :
    (v : ℕ) (node : VfsNode) (name : List ℕ) (p : ℕ) (pnode : PfsNode) (dir : Option ℕ) (s s' : Vfs)
    → get_elem? s.vnodes v ≡ some node
    → node.pn ≡ some p
    → get_elem? s.pnodes p ≡ some pnode
    → pfs_mkdir p pnode name s ≡ some (dir, s')
    → mkdir v name s ≡ made_child v name dir s'
unfolding mkdir
mkdir_unfolds v node name p pnode dir s s' e over there made = simp (e, over, there, made)

-- Where a node over a tmpfs keeps no child under a name, `mkdir` ends without a fault, makes a new
-- empty directory of that name and returns a new node for it, and `get_child` gives that node from then
-- on. Sound nodes stay sound, and no table loses an entry.
pub mkdir_lem :
    (v : ℕ) (node : VfsNode) (name : List ℕ) (p : ℕ) (own : List ℕ) (children : Map ℕ) (s : Vfs)
    → IsVfs s
    → get_elem? s.vnodes v ≡ some node
    → node.pn ≡ some p
    → get_elem? s.pnodes p ≡ some (temp_node own children)
    → try_get_value node.children (hash_of name) ≡ none
    → (s' : Vfs) × (mkdir v name s ≡ some (some (length s.vnodes), s'))
      × IsVfs s'
      × (get_elem? s'.vnodes (length s.vnodes) ≡ some (new_vnode (some v) (some (length s.pnodes))))
      × (get_elem? s'.pnodes (length s.pnodes) ≡ some (temp_node name Map.empty))
      × (get_child v name s' ≡ some (some (length s.vnodes), s'))
      × Grown s s'
unfolding made_child pfs_get_child
mkdir_lem v node name p own children s x e over there unknown =
    let (children', s1, made, sound, same, changed, dir, reads) =
      pfs_mkdir_lem p own children name s there x in
    let e1 : get_elem? s1.vnodes v ≡ some node = rw same e in
    let inside = lt_of_get_elem? s1.pnodes (length s.pnodes) dir in
    let (s', ends, at) = attach_lem v node name (length s.pnodes) s1 e1 inside sound in
    let (node', there', same_pn, known) = at.parent_now in
    let found : pfs_get_child (temp_node own children') name s1 ≡ (some (length s.pnodes), s1) =
      ap (λ (o : Option ℕ). (o, s1)) reads in
    let len : length s1.vnodes ≡ length s.vnodes = ap length same in
    let got = get_child_new v node name p (temp_node own children') s1 e1 over unknown changed in
    (
      s',
      mkdir_unfolds v node name p (temp_node own children) _ s s1 e over there made
          ∙ got
          ∙ ap (λ (q : Option ℕ × Vfs). attach v name q.0 q.1) found
          ∙ rw (← len) ends,
      at.sound,
      rw (← len) at.child_now,
      rw at.same_pnodes dir,
      rw (← len) (
          get_child_known v node' name p (length s1.vnodes) s' there' (same_pn ∙ over)
            (ground (arith, known (hash_of name)))),
      λ u n q. Attached-Grown v node name (length s.pnodes) s1 s' e1 unknown at u n (rw same q),
    )

-- Where the node keeps a child under the name, `mkdir` makes a new directory too, which takes the
-- place of the old one in the tmpfs, but returns the child that is kept, over the old directory.
pub mkdir_again :
    (v : ℕ) (node : VfsNode) (name : List ℕ) (p : ℕ) (own : List ℕ) (children : Map ℕ) (c : ℕ)
    (s : Vfs)
    → IsVfs s
    → get_elem? s.vnodes v ≡ some node
    → node.pn ≡ some p
    → get_elem? s.pnodes p ≡ some (temp_node own children)
    → try_get_value node.children (hash_of name) ≡ some c
    → (children' : Map ℕ) × (s' : Vfs) × (mkdir v name s ≡ some (some c, s'))
      × (s'.vnodes ≡ s.vnodes)
      × (get_elem? s'.pnodes p ≡ some (temp_node own children'))
      × (get_elem? s'.pnodes (length s.pnodes) ≡ some (temp_node name Map.empty))
      × (try_get_value children' (hash_of name) ≡ some (length s.pnodes))
unfolding made_child
mkdir_again v node name p own children c s x e over there known =
    let (children', s1, made, sound, same, changed, dir, reads) =
      pfs_mkdir_lem p own children name s there x in
    (
      children',
      s1,
      mkdir_unfolds v node name p (temp_node own children) _ s s1 e over there made
          ∙ get_child_known v node name p c s1 (rw same e) over known,
      same,
      changed,
      dir,
      reads,
    )

root_of-IsPfsNode : (n : ℕ) (fs : FsType) → IsPfsNode n (root_of fs)
root_of-IsPfsNode n rootfs = tt
root_of-IsPfsNode n tmpfs = empty-IsTable n
root_of-IsPfsNode n devfs = tt

-- `mount` of a file system that is registered ends without a fault: the node is over a new root of that
-- file system and has no children, and sound nodes stay sound.
pub mount_lem :
    (filesystems : List FilesystemRegistration) (v : ℕ) (node : VfsNode) (fstype : List ℕ)
    (fs : FsType) (s : Vfs)
    → IsVfs s
    → lookup_fs filesystems fstype ≡ some (some fs)
    → get_elem? s.vnodes v ≡ some node
    → (s' : Vfs) × (mount filesystems v fstype s ≡ some (true, s'))
      × IsVfs s'
      × (get_elem? s'.vnodes v
          ≡ some (record node { pn = some (length s.pnodes); children = Map.empty }))
      × (get_elem? s'.pnodes (length s.pnodes) ≡ some (root_of fs))
unfolding mount Map.clear
mount_lem filesystems v node fstype fs s x found e =
    let node' : VfsNode = record node { pn = some (length s.pnodes); children = Map.empty } in
    let more = new_pnode-IsVfs (root_of fs) s (root_of-IsPfsNode _ fs) x in
    let is : IsVfsNode (length s.vnodes) (length (s.pnodes ++ root_of fs ∷ [])) node' = record {
      table = empty-IsTable _;
      over = λ p h. ground (arith, length-append_one s.pnodes (root_of fs), h);
    } in
    (
      record (new_pnode (root_of fs) s) { vnodes = set s.vnodes v node' },
      simp (found, e),
      put_vnode-IsVfs v node' node (new_pnode (root_of fs) s) e is more,
      ground (arith, get_elem?-set s.vnodes v v node' e),
      ground (arith, get_elem?-append_one s.pnodes (root_of fs) (length s.pnodes)),
    )

only_elem : {A : Type 0} (a b : A) (i : ℕ) → get_elem? (a ∷ []) i ≡ some b → a ≡ b
only_elem a b zero e = some_inverse e
only_elem a b (suc i) e = cc

pub init-IsVfs : (devices : Map ℕ) → IsVfs (init devices)
init-IsVfs devices = record {
  root = omega arith;
  vnode = λ v node e.
      rw (← only_elem (new_vnode none (some 0)) node v e)
        (record { table = empty-IsTable _; over = λ p h. ground arith });
  pnode = λ p n e. rw (← only_elem root_node n p e) tt;
}
