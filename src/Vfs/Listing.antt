-- ===== src/Vfs/Listing.antt =====
-- Opening /dev as a directory after the start.
use infos.Prelude.{ℕ, ◌≡◌, refl, ◌∙◌, true, some, List, ◌∷◌}
use infos.Map.{Map}
use infos.Directories.{SimpleDirectory, open_directory}
use infos.Vfs.{Vfs, lookup_node, name_dev, init, start_filesystems}
use infos.Vfs.Paths.{walk, lookup_node-walk}
use infos.Vfs.Boot.{registered, HasDev, started, start_lem}
use infos.Vfs.Opendir.{pfs_opendir, opened_directory, opendir}

lookup_node-name_dev : (s : Vfs) → HasDev s → lookup_node (47 ∷ name_dev) s ≡ some (some 1, s)
unfolding walk
lookup_node-name_dev s dev = (lookup_node-walk name_dev s).0 ∙ rw dev.0 refl

opened_directory-dev :
    (fuel : ℕ) (device_name : ℕ → List ℕ) (s : Vfs) (d : SimpleDirectory)
    → HasDev s
    → open_directory fuel device_name s.devices ≡ some d
    → opened_directory fuel device_name (some 1) s ≡ some (some d, s)
unfolding opened_directory pfs_opendir
opened_directory-dev fuel device_name s d dev e = rw (dev.1, dev.2, e) refl

-- After the start "/dev" opens as the directory of the devices.
pub opendir-start_filesystems :
    (fuel : ℕ) (device_name : ℕ → List ℕ) (devices : Map ℕ) (d : SimpleDirectory)
    → open_directory fuel device_name devices ≡ some d
    → (s : Vfs) × (start_filesystems registered (init devices) ≡ some (true, s))
      × (opendir fuel device_name (47 ∷ name_dev) s ≡ some (some d, s))
unfolding opendir
opendir-start_filesystems fuel device_name devices d e =
    let s = started devices in
    let (starts, dev, same) = start_lem devices in
    let opens = opened_directory-dev fuel device_name s d dev (rw same e) in
    (s, starts, simp (lookup_node-name_dev s dev, opens))
