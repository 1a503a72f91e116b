-- ===== src/Vfs/Children.antt =====
-- `get_child` and `mkdir`: no fault, and a child that was given once is given again.
use infos.Prelude.{
  eq-or-ne, ℕ, ◌+◌, ◌<◌, ◌≡◌, ◌≢◌, refl, sym, ap, ◌∙◌, Option, none, some, List, [], ◌∷◌, ◌++◌,
  ◌==◌, if◌then◌else◌, length, get_elem?, set, get_elem?-set, get_elem?-append_one,
  length-append_one, length-set, set-append_one, some_inverse, lt_of_get_elem?, get_elem?_of_lt,
  Option-cases, inl, inr, arith,
}
use infos.Map.{try_get_value}
use infos.Vfs.{
  PfsNode, root_node, temp_node, device_root, device_node, VfsNode, Vfs, hash_of, new_vnode,
  pfs_get_child, attach, get_child,
}
use infos.Vfs.Sound.{
  add-IsTable, empty-IsTable, IsTable-grown, IsVfsNode, IsVfs, new_pnode-IsVfs, put_vnode-IsVfs,
  new_vnode-IsVfs,
}

-- What the file system's own `get_child` leaves.
pub record Found (s : Vfs) (r : Option ℕ) (s' : Vfs) : Type 0 where
  pub sound : IsVfs s'
  pub same_vnodes : s'.vnodes ≡ s.vnodes
  pub inside : (a : ℕ) → r ≡ some a → a < length s'.pnodes

pub pfs_get_child-Found :
    (p : ℕ) (n : PfsNode) (name : List ℕ) (s : Vfs)
    → get_elem? s.pnodes p ≡ some n
    → IsVfs s
    → Found s (pfs_get_child n name s).0 (pfs_get_child n name s).1
unfolding pfs_get_child
pfs_get_child-Found p root_node name s e v = record {
  sound = v;
  same_vnodes = refl;
  inside = λ a h. cc;
}
pfs_get_child-Found p (temp_node own children) name s e v = record {
  sound = v;
  same_vnodes = refl;
  inside = λ a h. (v.pnode p _ e).inside _ a h;
}
pfs_get_child-Found p device_root name s e v =
    elim (Option-cases (try_get_value s.devices (hash_of name))) [
      | inl absent ↦
          rw (absent, pfs_get_child) (record { sound = v; same_vnodes = refl; inside = λ a h. cc })
      | inr (dev, there) ↦
          rw (there, pfs_get_child)
            (record {
              sound = new_pnode-IsVfs (device_node dev) s tt v;
              same_vnodes = refl;
              inside = λ a h. ground (arith, length-append_one s.pnodes (device_node dev), h);
            })
    ]
pfs_get_child-Found p (device_node dev) name s e v = record {
  sound = v;
  same_vnodes = refl;
  inside = λ a h. cc;
}

-- A new node c under v for the node `assoc` of a file system.
pub record Attached (v : ℕ) (node : VfsNode) (name : List ℕ) (assoc : ℕ) (s s' : Vfs) : Type 0 where
  pub sound : IsVfs s'
  pub parent_now :
      (node' : VfsNode) × (get_elem? s'.vnodes v ≡ some node')
      × (node'.pn ≡ node.pn)
      × ((j : ℕ)
          → try_get_value node'.children j
            ≡ (if hash_of name == j then some (length s.vnodes) else try_get_value node.children j))
  pub child_now : get_elem? s'.vnodes (length s.vnodes) ≡ some (new_vnode (some v) (some assoc))
  pub same_pnodes : s'.pnodes ≡ s.pnodes
  pub others :
      (u : ℕ) (m : VfsNode) → u ≢ v → get_elem? s.vnodes u ≡ some m → get_elem? s'.vnodes u ≡ some m

pub attach_lem :
    (v : ℕ) (node : VfsNode) (name : List ℕ) (assoc : ℕ) (s : Vfs)
    → get_elem? s.vnodes v ≡ some node
    → assoc < length s.pnodes
    → IsVfs s
    → (s' : Vfs) × (attach v name (some assoc) s ≡ some (some (length s.vnodes), s'))
      × Attached v node name assoc s s'
unfolding attach
attach_lem v node name assoc s e inside x =
    let is = x.vnode v node e in
    let (children, ends, table, reads) =
      add-IsTable (length s.vnodes + 1) (hash_of name) (length s.vnodes) node.children (omega arith)
        (IsTable-grown _ _ node.children (omega arith) is.table) in
    let child = new_vnode (some v) (some assoc) in
    let node' : VfsNode = record node { children = children } in
    let within = lt_of_get_elem? s.vnodes v e in
    let more =
      new_vnode-IsVfs child s (record { table = empty-IsTable _; over = λ p h. ground arith }) x in
    let there : get_elem? (s.vnodes ++ child ∷ []) v ≡ some node =
      ground (arith, get_elem?-append_one s.vnodes child v, e) in
    let is' : IsVfsNode (length (s.vnodes ++ child ∷ [])) (length s.pnodes) node' = record {
      table = rw (length-append_one s.vnodes child) table;
      over = λ p h. is.over p h;
    } in
    let put =
      put_vnode-IsVfs v node' node (record s { vnodes = s.vnodes ++ child ∷ [] }) there is' more in
    let reordered = set-append_one s.vnodes v node' child within in
    (
      record s { vnodes = set s.vnodes v node' ++ child ∷ [] },
      rw (e, ends) refl,
      record {
        sound = rw reordered put;
        parent_now = (
          node',
          ground (
            arith,
            get_elem?-append_one (set s.vnodes v node') child v,
            get_elem?-set s.vnodes v v node' e,
            length-set s.vnodes v node',
          ),
          refl,
          reads,
        );
        child_now = ground (
          arith,
          get_elem?-append_one (set s.vnodes v node') child (length s.vnodes),
          length-set s.vnodes v node',
        );
        same_pnodes = refl;
        others = λ u m n q. ground (
          arith,
          get_elem?-append_one (set s.vnodes v node') child u,
          get_elem?-set s.vnodes v u node' e,
          length-set s.vnodes v node',
          lt_of_get_elem? s.vnodes u q,
        );
      },
    )

-- A node that is kept under a name is the answer, and nothing changes.
pub get_child_known :
    (v : ℕ) (node : VfsNode) (name : List ℕ) (p c : ℕ) (s : Vfs)
    → get_elem? s.vnodes v ≡ some node
    → node.pn ≡ some p
    → try_get_value node.children (hash_of name) ≡ some c
    → get_child v name s ≡ some (some c, s)
unfolding get_child
get_child_known v node name p c s e over known = simp (e, over, known)

-- A state to which nodes were added and in whose tables nothing got lost.
abbrev pub Grown : Vfs → Vfs → Type 0
Grown s s' =
    (v : ℕ) (node : VfsNode)
    → get_elem? s.vnodes v ≡ some node
    → (node' : VfsNode) × (get_elem? s'.vnodes v ≡ some node')
      × (node'.pn ≡ node.pn)
      × ((h c : ℕ)
          → try_get_value node.children h ≡ some c
          → try_get_value node'.children h ≡ some c)

-- Node v keeps c under a name.
abbrev pub Keeps : ℕ → List ℕ → ℕ → Vfs → Type 0
Keeps v name c s =
    (node : VfsNode) × (p : ℕ) × (get_elem? s.vnodes v ≡ some node)
    × (node.pn ≡ some p)
    × (try_get_value node.children (hash_of name) ≡ some c)

pub Keeps-Grown :
    (v : ℕ) (name : List ℕ) (c : ℕ) (s s' : Vfs) → Grown s s' → Keeps v name c s → Keeps v name c s'
Keeps-Grown v name c s s' g (node, p, e, over, known) =
    let (node', e', same, more) = g v node e in (node', p, e', same ∙ over, more _ c known)

pub get_child_kept :
    (v : ℕ) (name : List ℕ) (c : ℕ) (s : Vfs)
    → Keeps v name c s
    → get_child v name s ≡ some (some c, s)
get_child_kept v name c s (node, p, e, over, known) = get_child_known v node name p c s e over known

-- What `get_child` leaves.
pub record Given (v : ℕ) (name : List ℕ) (s : Vfs) (r : Option ℕ) (s' : Vfs) : Type 0 where
  pub sound : IsVfs s'
  pub inside : (c : ℕ) → r ≡ some c → c < length s'.vnodes
  pub kept : (c : ℕ) → r ≡ some c → Keeps v name c s'
  pub grown : Grown s s'

abbrev pub Gives : Vfs → Option (Option ℕ × Vfs) → ℕ → List ℕ → Type 0
Gives s result v name = (r : Option ℕ) × (s' : Vfs) × (result ≡ some (r, s')) × Given v name s r s'

Grown-refl : (s s' : Vfs) → s'.vnodes ≡ s.vnodes → Grown s s'
Grown-refl s s' same v node e = (node, rw same e, refl, λ h c k. k)

pub Attached-Grown :
    (v : ℕ) (node : VfsNode) (name : List ℕ) (a : ℕ) (s s' : Vfs)
    → get_elem? s.vnodes v ≡ some node
    → try_get_value node.children (hash_of name) ≡ none
    → Attached v node name a s s'
    → Grown s s'
Attached-Grown v node name a s s' e unknown at u m q = elim (eq-or-ne u v) [
  | inl here ↦
      let (node', there, same_pn, reads) = at.parent_now in
      let same : node ≡ m = some_inverse (sym e ∙ ap (get_elem? s.vnodes) (sym here) ∙ q) in
      rw (here, ← same) (node', there, same_pn, λ h c k. ground (arith, reads h, k, unknown))
  | inr other ↦ (m, at.others u m other q, refl, λ h c k. k)
]

attach-Gives :
    (v : ℕ) (node : VfsNode) (name : List ℕ) (p : ℕ) (assoc : Option ℕ) (s : Vfs)
    → get_elem? s.vnodes v ≡ some node
    → node.pn ≡ some p
    → ((a : ℕ) → assoc ≡ some a → a < length s.pnodes)
    → IsVfs s
    → try_get_value node.children (hash_of name) ≡ none
    → Gives s (attach v name assoc s) v name
unfolding attach
attach-Gives v node name p none s e over inside x unknown = (
  none,
  s,
  refl,
  record { sound = x; inside = λ c h. cc; kept = λ c h. cc; grown = Grown-refl s s refl },
)
attach-Gives v node name p (some a) s e over inside x unknown =
    let (s', ends, at) = attach_lem v node name a s e (inside a refl) x in
    let (node', there, same_pn, reads) = at.parent_now in
    let known : try_get_value node'.children (hash_of name) ≡ some (length s.vnodes) =
      ground (arith, reads (hash_of name)) in
    (
      some (length s.vnodes),
      s',
      ends,
      record {
        sound = at.sound;
        inside =
            λ c h. rw (← some_inverse h) (lt_of_get_elem? s'.vnodes (length s.vnodes) at.child_now);
        kept = λ c h. rw (← some_inverse h) (node', p, there, same_pn ∙ over, known);
        grown = Attached-Grown v node name a s s' e unknown at;
      },
    )

pub get_child_new :
    (v : ℕ) (node : VfsNode) (name : List ℕ) (p : ℕ) (pnode : PfsNode) (s : Vfs)
    → get_elem? s.vnodes v ≡ some node
    → node.pn ≡ some p
    → try_get_value node.children (hash_of name) ≡ none
    → get_elem? s.pnodes p ≡ some pnode
    → get_child v name s
      ≡ attach v name (pfs_get_child pnode name s).0 (pfs_get_child pnode name s).1
unfolding get_child
get_child_new v node name p pnode s e over unknown there = simp (e, over, unknown, there)

get_child_no_pn :
    (v : ℕ) (node : VfsNode) (name : List ℕ) (s : Vfs)
    → get_elem? s.vnodes v ≡ some node
    → node.pn ≡ none
    → get_child v name s ≡ some (none, s)
unfolding get_child
get_child_no_pn v node name s e over = simp (e, over)

-- On sound nodes `get_child` of a node that is there ends without a fault, keeps the nodes sound and
-- loses nothing. A child that it gives is there and is kept under its name.
pub get_child_lem :
    (v : ℕ) (name : List ℕ) (s : Vfs)
    → IsVfs s
    → v < length s.vnodes
    → Gives s (get_child v name s) v name
get_child_lem v name s x h =
    let (node, e) = get_elem?_of_lt s.vnodes v h in
    let is = x.vnode v node e in
    elim (Option-cases node.pn) [
      | inl no_pn ↦ (
        none,
        s,
        get_child_no_pn v node name s e no_pn,
        record { sound = x; inside = λ c q. cc; kept = λ c q. cc; grown = Grown-refl s s refl },
      )
      | inr (p, over) ↦ elim (Option-cases (try_get_value node.children (hash_of name))) [
        | inr (c, known) ↦ (
          some c,
          s,
          get_child_known v node name p c s e over known,
          record {
            sound = x;
            inside = λ d q. rw (← some_inverse q) (is.table.inside _ c known);
            kept = λ d q. rw (← some_inverse q) (node, p, e, over, known);
            grown = Grown-refl s s refl;
          },
        )
        | inl unknown ↦
            let (pnode, there) = get_elem?_of_lt s.pnodes p (is.over p over) in
            let found = pfs_get_child-Found p pnode name s there x in
            let s1 = (pfs_get_child pnode name s).1 in
            let (r, s', ends, given) =
              attach-Gives v node name p (pfs_get_child pnode name s).0 s1 (rw found.same_vnodes e)
                over found.inside found.sound unknown in
            (
              r,
              s',
              get_child_new v node name p pnode s e over unknown there ∙ ends,
              record {
                sound = given.sound;
                inside = given.inside;
                kept = given.kept;
                grown = λ u n q. given.grown u n (rw found.same_vnodes q);
              },
            )
      ]
    ]
