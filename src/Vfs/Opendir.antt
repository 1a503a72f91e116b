-- ===== src/Vfs/Opendir.antt =====
-- `VirtualFilesystem::opendir` over the nodes of fs/rootfs.cpp, fs/tmpfs.cpp and fs/devfs.cpp.
use infos.Prelude.{ℕ, Option, none, some, List, [], ◌>>=◌, get_elem?}
use infos.Directories.{SimpleDirectory, open_directory}
use infos.Vfs.{PfsNode, root_node, temp_node, device_root, device_node, Vfs, lookup_node}

-- The name of a node; only those of a tmpfs have one.
abbrev pub node_name : Option PfsNode → List ℕ
node_name none = []
node_name (some root_node) = []
node_name (some (temp_node own children)) = own
node_name (some device_root) = []
node_name (some (device_node dev)) = []

-- `opendir` of the file systems' nodes; the function gives the names of the devices.
unfoldable pub pfs_opendir : ℕ → (ℕ → List ℕ) → Vfs → PfsNode → Option (Option SimpleDirectory)
unfolding open_directory
pfs_opendir fuel device_name s root_node = some none
pfs_opendir fuel device_name s (temp_node own children) =
    open_directory fuel (λ p. node_name (get_elem? s.pnodes p)) children >>= λ d. some (some d)
pfs_opendir fuel device_name s device_root =
    open_directory fuel device_name s.devices >>= λ d. some (some d)
pfs_opendir fuel device_name s (device_node dev) = some none

-- What `opendir` does with the node that it looked up.
unfoldable pub opened_directory :
    ℕ → (ℕ → List ℕ) → Option ℕ → Vfs → Option (Option SimpleDirectory × Vfs)
unfolding pfs_opendir
opened_directory fuel device_name none s = some (none, s)
opened_directory fuel device_name (some v) s = do
  node ← get_elem? s.vnodes v
  elim node.pn [
    | none ↦ some (none, s)
    | some p ↦ do
      pnode ← get_elem? s.pnodes p
      d ← pfs_opendir fuel device_name s pnode
      some (d, s)
  ]

unfoldable pub opendir : ℕ → (ℕ → List ℕ) → List ℕ → Vfs → Option (Option SimpleDirectory × Vfs)
unfolding lookup_node opened_directory
opendir fuel device_name path s = do
  (found, s') ← lookup_node path s
  opened_directory fuel device_name found s'
