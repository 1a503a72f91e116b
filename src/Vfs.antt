-- ===== src/Vfs.antt =====
-- fs/vfs.cpp and fs/vfs-node.cpp over fs/rootfs.cpp, fs/tmpfs.cpp and fs/devfs.cpp. A pointer to a node
-- is its index in the list of all nodes made so far; the nodes of the file systems have a list of their
-- own. A text is the list of its characters, without its NUL. `none` is a fault, a null pointer of the
-- source is the `none` inside a result.
pub mod Paths
pub mod Sound
pub mod Children
pub mod Making
pub mod Lookups
pub mod Boot
pub mod Opendir
pub mod Listing
mod Tests
use infos.Prelude.{
  ℕ, zero, suc, ◌+◌, ◌%◌, ◌<◌, Bool, true, false, Option, none, some, List, [], ◌∷◌, ◌++◌, ltb,
  ◌==◌, if◌then◌else◌, ◌>>=◌, ◌>>◌, assert, length, get_elem?, set,
}
use infos.Map
use infos.Map.{Map}
use infos.Strings.{of_chars, get_hash, strncmp}

-- `PFSNode`: `RootFSNode`, `TempFSNode` with its name and children, `DeviceFSRootNode` and
-- `DeviceFSNode` with its device.
pub data PfsNode : Type 0 where
  root_node : PfsNode
  temp_node : List ℕ → Map ℕ → PfsNode
  device_root : PfsNode
  device_node : ℕ → PfsNode

pub record VfsNode : Type 0 where
  pub parent : Option ℕ
  pub pn : Option ℕ
  pub children : Map ℕ

-- All nodes, and the table of the device manager.
pub record Vfs : Type 0 where
  pub vnodes : List VfsNode
  pub pnodes : List PfsNode
  pub devices : Map ℕ

-- `name.get_hash()`
abbrev pub hash_of : List ℕ → ℕ
hash_of name = (get_hash (of_chars name)).0

abbrev pub new_pnode : PfsNode → Vfs → Vfs
new_pnode n s = record s { pnodes = s.pnodes ++ n ∷ [] }

-- `get_child` of the file systems' nodes.
unfoldable pub pfs_get_child : PfsNode → List ℕ → Vfs → Option ℕ × Vfs
pfs_get_child root_node name s = (none, s)
pfs_get_child (temp_node own children) name s = (Map.try_get_value children (hash_of name), s)
pfs_get_child device_root name s = elim (Map.try_get_value s.devices (hash_of name)) [
  | none ↦ (none, s)
  | some dev ↦ (some (length s.pnodes), new_pnode (device_node dev) s)
]
pfs_get_child (device_node dev) name s = (none, s)

-- `mkdir` of the file systems' nodes: of a node at p.
unfoldable pub pfs_mkdir : ℕ → PfsNode → List ℕ → Vfs → Option (Option ℕ × Vfs)
pfs_mkdir p root_node name s = some (none, s)
pfs_mkdir p (temp_node own children) name s = do
  children' ← Map.add children (hash_of name) (length s.pnodes)
  some (
    some (length s.pnodes),
    new_pnode (temp_node name Map.empty)
        (record s { pnodes = set s.pnodes p (temp_node own children') }),
  )
pfs_mkdir p device_root name s = some (none, s)
pfs_mkdir p (device_node dev) name s = some (none, s)

abbrev pub new_vnode : Option ℕ → Option ℕ → VfsNode
new_vnode parent pn = record { parent = parent; pn = pn; children = Map.empty }

-- The second half of `get_child`: a new node for what the file system found, kept under its hash.
unfoldable pub attach : ℕ → List ℕ → Option ℕ → Vfs → Option (Option ℕ × Vfs)
attach v name none s = some (none, s)
attach v name (some assoc) s = do
  node ← get_elem? s.vnodes v
  children ← Map.add node.children (hash_of name) (length s.vnodes)
  some (
    some (length s.vnodes),
    record s {
      vnodes =
          set s.vnodes v (record node { children = children })
          ++ new_vnode (some v) (some assoc) ∷ [];
    },
  )

-- `VFSNode::get_child`
unfoldable pub get_child : ℕ → List ℕ → Vfs → Option (Option ℕ × Vfs)
unfolding pfs_get_child attach
get_child v name s = do
  node ← get_elem? s.vnodes v
  elim node.pn [
    | none ↦ some (none, s)
    | some p ↦ elim (Map.try_get_value node.children (hash_of name)) [
      | some child ↦ some (some child, s)
      | none ↦ do
        pnode ← get_elem? s.pnodes p
        let found = pfs_get_child pnode name s
        attach v name found.0 found.1
    ]
  ]

-- What `VFSNode::mkdir` returns for what the file system made.
unfoldable pub made_child : ℕ → List ℕ → Option ℕ → Vfs → Option (Option ℕ × Vfs)
unfolding get_child
made_child v name none s = some (none, s)
made_child v name (some dir) s = get_child v name s

unfoldable pub mkdir : ℕ → List ℕ → Vfs → Option (Option ℕ × Vfs)
unfolding pfs_mkdir made_child
mkdir v name s = do
  node ← get_elem? s.vnodes v
  elim node.pn [
    | none ↦ some (none, s)
    | some p ↦ do
      pnode ← get_elem? s.pnodes p
      (dir, s') ← pfs_mkdir p pnode name s
      made_child v name dir s'
  ]

-- The file systems, by their `creation_fn`, and what their `mount` makes.
pub data FsType : Type 0 where
  rootfs tmpfs devfs : FsType

abbrev pub root_of : FsType → PfsNode
root_of rootfs = root_node
root_of tmpfs = temp_node [] Map.empty
root_of devfs = device_root

pub record FilesystemRegistration : Type 0 where
  pub name : List ℕ
  pub creation_fn : FsType

unfoldable pub lookup_fs : List FilesystemRegistration → List ℕ → Option (Option FsType)
lookup_fs [] fstype = some none
lookup_fs (reg ∷ rest) fstype =
    let further = lookup_fs rest fstype in
    (strncmp (reg.name ++ 0 ∷ []) (fstype ++ 0 ∷ []) 16) >>= λ differs.
    if differs then further else some (some reg.creation_fn)

-- `VFSNode::mount`, and whether it gave a file system.
unfoldable pub mount : List FilesystemRegistration → ℕ → List ℕ → Vfs → Option (Bool × Vfs)
unfolding lookup_fs
mount filesystems v fstype s = do
  fsreg ← lookup_fs filesystems fstype
  node ← get_elem? s.vnodes v
  some (elim fsreg [
    | none ↦ (false, s)
    | some fs ↦ (
      true,
      record (new_pnode (root_of fs) s) {
        vnodes =
            set s.vnodes v
              (record node { pn = some (length s.pnodes); children = Map.clear node.children });
      },
    )
  ])

-- `VirtualFilesystem::init`: the root node, over a rootfs.
abbrev pub init : Map ℕ → Vfs
init devices = record {
  vnodes = new_vnode none (some 0) ∷ [];
  pnodes = root_node ∷ [];
  devices = devices;
}

-- The loop that reads a component, and the rest behind its '/'.
unfoldable pub take_component : List ℕ → List ℕ × List ℕ
take_component [] = ([], [])
take_component (c ∷ path) =
    let (component, rest) = take_component path in
    if c == 47 then ([], path) else (c ∷ component, rest)

-- A round of `lookup_node`: `component` has 256 cells, one of them for the NUL.
unfoldable pub lookup_component :
    List ℕ → ℕ → (ℕ → Vfs → Option (Option ℕ × Vfs)) → Vfs → Option (Option ℕ × Vfs)
unfolding get_child
lookup_component component current next s = assert (ltb (length component) 256) >> elim component [
  | [] ↦ some (some current, s)
  | c ∷ rest ↦ do
    (child, s') ← get_child current (c ∷ rest) s
    elim child [ none ↦ some (none, s') | some node ↦ next node s' ]
]

-- The loop of `lookup_node`; a round takes a character at least or is the last.
unfoldable pub lookup_from : ℕ → ℕ → List ℕ → Vfs → Option (Option ℕ × Vfs)
unfolding take_component lookup_component
lookup_from zero current path s = none
lookup_from (suc fuel) current path s =
    let (component, rest) = take_component path in
    lookup_component component current (λ node s'. lookup_from fuel node rest s') s

-- `lookup_node`, with the root at 0.
unfoldable pub lookup_node : List ℕ → Vfs → Option (Option ℕ × Vfs)
unfolding lookup_from
lookup_node [] s = some (none, s)
lookup_node (c ∷ path) s =
    if c == 47
    then elim path [
      | [] ↦ some (some 0, s)
      | d ∷ rest ↦ lookup_from (suc (length (d ∷ rest))) 0 (d ∷ rest) s
    ]
    else some (none, s)

-- `open` of the file systems' nodes; the function gives the files of the devices.
abbrev pub pfs_open : (ℕ → Option ℕ) → PfsNode → Option ℕ
pfs_open open_as_file root_node = none
pfs_open open_as_file (temp_node own children) = none
pfs_open open_as_file device_root = none
pfs_open open_as_file (device_node dev) = open_as_file dev

-- What `open` does with the node that it looked up.
unfoldable pub opened : (ℕ → Option ℕ) → Option ℕ → Vfs → Option (Option ℕ × Vfs)
opened open_as_file none s = some (none, s)
opened open_as_file (some v) s = do
  node ← get_elem? s.vnodes v
  elim node.pn [
    | none ↦ some (none, s)
    | some p ↦ do pnode ← get_elem? s.pnodes p; some (pfs_open open_as_file pnode, s)
  ]

-- `VirtualFilesystem::open`
unfoldable pub open_path : (ℕ → Option ℕ) → List ℕ → Vfs → Option (Option ℕ × Vfs)
unfolding lookup_node
open_path open_as_file path s = do (found, s') ← lookup_node path s; opened open_as_file found s'

-- What the kernel's thread does first: "tmpfs" at the root, "devfs" at a new /dev, and a new /usr.
-- `false` is an abort.
abbrev pub name_dev : List ℕ
name_dev = 100 ∷ 101 ∷ 118 ∷ []

abbrev pub name_usr : List ℕ
name_usr = 117 ∷ 115 ∷ 114 ∷ []

abbrev pub name_tmpfs : List ℕ
name_tmpfs = 116 ∷ 109 ∷ 112 ∷ 102 ∷ 115 ∷ []

abbrev pub name_devfs : List ℕ
name_devfs = 100 ∷ 101 ∷ 118 ∷ 102 ∷ 115 ∷ []

-- `if (!root->mount(…)) arch_abort()` and `if (!dev) arch_abort()`.
abbrev pub mounted_or_abort :
    Option (Bool × Vfs) → (Vfs → Option (Bool × Vfs)) → Option (Bool × Vfs)
mounted_or_abort none next = none
mounted_or_abort (some (false, s)) next = some (false, s)
mounted_or_abort (some (true, s)) next = next s

abbrev pub made_or_abort :
    Option (Option ℕ × Vfs) → (ℕ → Vfs → Option (Bool × Vfs)) → Option (Bool × Vfs)
made_or_abort none next = none
made_or_abort (some (none, s)) next = some (false, s)
made_or_abort (some (some v, s)) next = next v s

unfoldable pub start_filesystems : List FilesystemRegistration → Vfs → Option (Bool × Vfs)
unfolding lookup_node mount mkdir
start_filesystems filesystems s = do
  (found, s) ← lookup_node (47 ∷ []) s
  root ← found
  mounted_or_abort (mount filesystems root name_tmpfs s) λ s.
      made_or_abort (mkdir root name_dev s) λ dev s.
        mounted_or_abort (mount filesystems dev name_devfs s)
          λ s. made_or_abort (mkdir root name_usr s) λ usr s. some (true, s)
