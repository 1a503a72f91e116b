-- ===== src/Vfs/Boot.antt =====
-- After the start the devices are open under /dev.
use infos.Prelude.{
  ℕ, ◌<◌, ◌≡◌, refl, ap, ◌∙◌, Bool, true, Option, none, some, List, [], ◌∷◌, ◌++◌, ltb, length,
  get_elem?, get_elem?-append_one, set, length-set, parts_of_free, tally, Option-cases, inl, inr,
  arith,
}
use infos.Map
use infos.Map.{Map, try_get_value}
use infos.Strings.{strncmp, get_hash}
use infos.Map.Laws.{add_refines, empty-IsValid}
use infos.Vfs.Children.{get_child_new}
use infos.Vfs.Paths.{walk, leading, lookup_node-walk}
use infos.Vfs.{
  opened, open_path, device_node, new_pnode, pfs_get_child, new_vnode, VfsNode, Vfs, device_root,
  FilesystemRegistration, rootfs, tmpfs, devfs, init, get_child, attach, mkdir, mount, lookup_node,
  start_filesystems, name_tmpfs, name_devfs, name_dev, hash_of,
}

abbrev pub registered : List FilesystemRegistration
registered =
    record { name = 114 ∷ 111 ∷ 111 ∷ 116 ∷ 102 ∷ 115 ∷ []; creation_fn = rootfs }
    ∷ record { name = name_tmpfs; creation_fn = tmpfs }
    ∷ record { name = name_devfs; creation_fn = devfs }
    ∷ []

started_from : Option (Bool × Vfs) → Vfs → Vfs
started_from none s = s
started_from (some (b, s')) s = s'

pub started : Map ℕ → Vfs
unfolding start_filesystems started_from
started devices = started_from (start_filesystems registered (init devices)) (init devices)

-- What the start leaves: /dev is node 1, over the root of the devfs.
abbrev pub HasDev : Vfs → Type 0
HasDev s =
    (get_child 0 name_dev s ≡ some (some 1, s))
    × (get_elem? s.vnodes 1 ≡ some (record { parent = some 0; pn = some 3; children = Map.empty }))
    × (get_elem? s.pnodes 3 ≡ some device_root)

pub start_lem :
    (devices : Map ℕ)
    → (start_filesystems registered (init devices) ≡ some (true, started devices))
      × HasDev (started devices)
      × ((started devices).devices ≡ devices)
unfolding start_filesystems started started_from lookup_node mount mkdir strncmp get_hash Map.add
    Map.add_at Map.find_owner Map.empty try_get_value Map.clear Map.rebalance_insert
start_lem devices = (refl, (refl, refl, refl), refl)

-- The file that a look-up in the table of devices gives.
abbrev pub file_of : (ℕ → Option ℕ) → Option ℕ → Option ℕ
file_of open_as_file none = none
file_of open_as_file (some dev) = open_as_file dev

abbrev NewNode : List ℕ → ℕ → Vfs → Type 0
NewNode name a s =
    (s' : Vfs) × (attach 1 name (some a) s ≡ some (some (length s.vnodes), s'))
    × (get_elem? s'.vnodes (length s.vnodes) ≡ some (new_vnode (some 1) (some a)))
    × (s'.pnodes ≡ s.pnodes)

empty_reads : (h : ℕ) → try_get_value (Map.empty {V = ℕ}) h ≡ none
unfolding try_get_value Map.empty
empty_reads h = refl

attach_dev :
    (name : List ℕ) (a : ℕ) (s : Vfs)
    → get_elem? s.vnodes 1 ≡ some (record { parent = some 0; pn = some 3; children = Map.empty })
    → NewNode name a s
unfolding attach
attach_dev name a s e =
    let (children, ends, valid, contents) =
      add_refines Map.empty (hash_of name) (length s.vnodes) empty-IsValid in
    let node : VfsNode = record { parent = some 0; pn = some 3; children = children } in
    let child = new_vnode (some 1) (some a) in
    (
      record s { vnodes = set s.vnodes 1 node ++ child ∷ [] },
      rw (e, ends) refl,
      ground (
        arith,
        get_elem?-append_one (set s.vnodes 1 node) child (length s.vnodes),
        length-set s.vnodes 1 node,
      ),
      refl,
    )

device_found :
    (name : List ℕ) (s : Vfs) (dev : Option ℕ)
    → try_get_value s.devices (hash_of name) ≡ dev
    → pfs_get_child device_root name s ≡ (elim dev [
      | none ↦ (none, s)
      | some d ↦ (some (length s.pnodes), new_pnode (device_node d) s)
    ])
unfolding pfs_get_child
device_found name s dev e = rw (e, pfs_get_child) refl

opened_device :
    (open_as_file : ℕ → Option ℕ) (v p d : ℕ) (s : Vfs)
    → get_elem? s.vnodes v ≡ some (new_vnode (some 1) (some p))
    → get_elem? s.pnodes p ≡ some (device_node d)
    → opened open_as_file (some v) s ≡ some (open_as_file d, s)
unfolding opened
opened_device open_as_file v p d s e there = simp (e, there)

open_child :
    (open_as_file : ℕ → Option ℕ) (name : List ℕ) (s : Vfs)
    → HasDev s
    → (found : Option ℕ) × (s' : Vfs) × (get_child 1 name s ≡ some (found, s'))
      × (opened open_as_file found s'
          ≡ some (file_of open_as_file (try_get_value s.devices (hash_of name)), s'))
unfolding attach opened
open_child open_as_file name s dev =
    let unknown : try_get_value (Map.empty {V = ℕ}) (hash_of name) ≡ none =
      empty_reads (hash_of name) in
    let new = get_child_new 1 _ name 3 device_root s dev.1 refl unknown dev.2 in
    elim (Option-cases (try_get_value s.devices (hash_of name))) [
      | inl absent ↦ (
        none,
        s,
        new ∙ ap (λ (q : Option ℕ × Vfs). attach 1 name q.0 q.1) (device_found name s none absent),
        rw absent (opened_none s),
      )
      | inr (d, there) ↦
          let s1 = new_pnode (device_node d) s in
          let (s', ends, at, same) = attach_dev name (length s.pnodes) s1 dev.1 in
          (
            some (length s.vnodes),
            s',
            new
                ∙ ap (λ (q : Option ℕ × Vfs). attach 1 name q.0 q.1)
                    (device_found name s (some d) there)
                ∙ ends,
            rw there (
                opened_device open_as_file _ (length s.pnodes) d s' at (
                  rw same (
                    ground
                      (arith, get_elem?-append_one s.pnodes (device_node d) (length s.pnodes))))),
          )
    ]
  where
    opened_none : (s : Vfs) → opened open_as_file none s ≡ some (none, s)
    opened_none s = refl

walk_dev :
    (name : List ℕ) (found : Option ℕ) (s s' : Vfs)
    → get_child 0 name_dev s ≡ some (some 1, s)
    → length name < 256
    → get_child 1 name s ≡ some (found, s')
    → walk 0 (name_dev ∷ name ∷ []) s ≡ some (found, s')
unfolding walk
walk_dev name none s s' dev short got =
    let fits : ltb (length name) 256 ≡ true = ground arith in rw (dev, fits, got) refl
walk_dev name (some v) s s' dev short got =
    let fits : ltb (length name) 256 ≡ true = ground arith in rw (dev, fits, got) refl

lookup_node-dev :
    (name : List ℕ) (s : Vfs)
    → tally 47 name ≡ 0
    → 0 < length name
    → lookup_node (47 ∷ name_dev ++ 47 ∷ name) s ≡ walk 0 (name_dev ∷ name ∷ []) s
lookup_node-dev [] s free h = absurd (omega arith)
lookup_node-dev (c ∷ name) s free h =
    (lookup_node-walk (name_dev ++ 47 ∷ c ∷ name) s).0
    ∙ ap (λ parts. walk 0 (name_dev ∷ leading parts) s) (parts_of_free 47 (c ∷ name) free)

-- After the start, a path "/dev/" with a name of 1 to 255 characters, with no '/', opens without a fault:
-- as the file of the device that the device table has under the hash of the name, and as NULL if it has
-- none there.
pub open_path-start_filesystems :
    (open_as_file : ℕ → Option ℕ) (devices : Map ℕ) (name : List ℕ)
    → tally 47 name ≡ 0
    → 0 < length name
    → length name < 256
    → (s : Vfs) × (s' : Vfs) × (start_filesystems registered (init devices) ≡ some (true, s))
      × (open_path open_as_file (47 ∷ name_dev ++ 47 ∷ name) s
          ≡ some (file_of open_as_file (try_get_value devices (hash_of name)), s'))
unfolding open_path
open_path-start_filesystems open_as_file devices name free some_chars short =
    let s = started devices in
    let (starts, dev, same) = start_lem devices in
    let (found, s', got, done) = open_child open_as_file name s dev in
    (
      s,
      s',
      starts,
      simp (
        lookup_node-dev name s free some_chars ∙ walk_dev name found s s' dev.0 short got,
        done,
        same,
      ),
    )
