-- ===== src/Syscalls/Listing.antt =====
-- Listing a directory through the system calls.
use infos.Prelude.{
  ℕ, zero, suc, ◌+◌, ◌^◌, ◌≤◌, ◌<◌, ◌≡◌, refl, sym, ap, ◌∙◌, Bool, true, Option, none, some, List,
  [], ◌∷◌, ◌++◌, ◌>>=◌, length, take, drop, map, min, tally, Option-cases, some_inverse, inl, inr,
  arith,
}
use infos.Map.{Map}
use infos.Map.Contents.{inorder}
use infos.Map.Iterator.{weigh}
use infos.Directories.{DirectoryEntry, SimpleDirectory, read_entry, read_all}
use infos.Directories.Laws.{entry_of, read_all-open_directory}
use infos.Strings.Cells.{strncpy_lem}
use infos.Vfs.{Vfs, name_dev, init, start_filesystems}
use infos.Vfs.Boot.{registered}
use infos.Vfs.Opendir.{opendir}
use infos.Vfs.Listing.{opendir-start_filesystems}
use infos.Syscalls.Handles.{
  directory, Kernel, UserEntry, stored_entry, on_directory, register, sys_opendir, sys_readdir,
}
use infos.Syscalls.Secure.{Holds, IsKernel, register_lem, with_object_lem}

-- What is stored for an entry: the first 62 characters of its name, over the cells before.
abbrev pub user_entry : List ℕ → DirectoryEntry → UserEntry
user_entry cells e = record {
  name = take 62 e.name ++ 0 ∷ drop (suc (min 62 (length e.name))) cells;
  size = e.size;
  flags = 0;
}

stored_entry_lem :
    (cells : List ℕ) (e : DirectoryEntry) (d : SimpleDirectory)
    → 63 ≤ length cells
    → tally 0 e.name ≡ 0
    → stored_entry cells (some e, d) ≡ some ((1, some (user_entry cells e)), d)
unfolding stored_entry
stored_entry_lem cells e d room free =
    rw (strncpy_lem e.name [] cells 62 free (omega arith) (omega arith)) refl

module _ {F : Type 0} (process_of : ℕ → ℕ) (cells : List ℕ) where
  -- A program that calls `sys_readdir` until it gets 0; the fuel counts the calls.
  unfoldable pub list_directory : ℕ → ℕ → ℕ → Kernel F → Option (List UserEntry × Kernel F)
  unfolding sys_readdir
  list_directory zero thread h k = none
  list_directory (suc fuel) thread h k = do
    ((ret, entry), k') ← sys_readdir process_of cells thread h k
    elim entry [
      | none ↦ some ([], k')
      | some e ↦ list_directory fuel thread h k' >>= λ r. some (e ∷ r.0, r.1)
    ]

-- Names with no NUL inside.
abbrev pub AreTexts : List DirectoryEntry → Type 0
AreTexts [] = Unit {0}
AreTexts (e ∷ es) = (tally 0 e.name ≡ 0) × AreTexts es

-- A call of `sys_readdir` by a thread of the handle's process.
sys_readdir_lem :
    {F : Type 0} (process_of : ℕ → ℕ) (cells : List ℕ) (owner thread h : ℕ) (d d' : SimpleDirectory)
    (x : Option DirectoryEntry × SimpleDirectory) (r : ℕ × Option UserEntry) (k : Kernel F)
    → IsKernel k
    → Holds k owner h (directory d)
    → process_of owner ≡ process_of thread
    → read_entry d ≡ some x
    → stored_entry cells x ≡ some (r, d')
    → (k' : Kernel F) × (sys_readdir process_of cells thread h k ≡ some (r, k'))
      × IsKernel k'
      × Holds k' owner h (directory d')
unfolding sys_readdir
sys_readdir_lem {F = F} process_of cells owner thread h d d' x r k is holds same read stored =
    let call : SimpleDirectory → Option ((ℕ × Option UserEntry) × SimpleDirectory) =
      λ d. read_entry d >>= λ y. stored_entry cells y in
    let called : call d ≡ some (r, d') = rw (read, stored) refl in
    let (k', ends, is', _, holds') =
      (with_object_lem process_of (0, none) r (on_directory call) owner thread h (directory d)
          (directory d') k is holds).0
        same (rw called refl) in
    (k', ends, is', holds')

module _ {F : Type 0} (process_of : ℕ → ℕ) (cells : List ℕ) (room : 63 ≤ length cells) where
  list_directory_lem :
      (fuel owner thread h : ℕ) (d : SimpleDirectory) (es : List DirectoryEntry) (k : Kernel F)
      → IsKernel k
      → Holds k owner h (directory d)
      → process_of owner ≡ process_of thread
      → read_all fuel d ≡ some es
      → AreTexts es
      → (k' : Kernel F) × (list_directory process_of cells fuel thread h k
          ≡ some (map (user_entry cells) es, k'))
  unfolding list_directory read_all stored_entry
  list_directory_lem zero owner thread h d es k is holds same e texts = cc
  list_directory_lem (suc fuel) owner thread h d es k is holds same e texts =
      elim (Option-cases (read_entry d)) [
        | inl fault ↦ absurd (ground (arith, e, fault))
        | inr ((none, d'), done) ↦
            let (k', ends, _, _) =
              sys_readdir_lem process_of cells owner thread h d d' (none, d') (0, none) k is holds
                same done refl in
            let empty : [] ≡ es = some_inverse (rw done at e) in
            (k', rw (← empty, list_directory, ends) refl)
        | inr ((some entry, d'), more) ↦ elim (Option-cases (read_all fuel d')) [
          | inl fault ↦ absurd (ground (arith, e, more, fault))
          | inr (rest, reads) ↦
              let all : entry ∷ rest ≡ es = some_inverse (rw (more, reads) at e) in
              let free : AreTexts (entry ∷ rest) = rw (← all) at texts in
              let (k1, ends, is1, holds1) =
                sys_readdir_lem process_of cells owner thread h d d' (some entry, d')
                  (1, some (user_entry cells entry)) k is holds same more
                  (stored_entry_lem cells entry d' room free.0) in
              let (k', lists) =
                list_directory_lem fuel owner thread h d' rest k1 is1 holds1 same reads free.1 in
              (k', rw (← all, list_directory, ends, lists) refl)
        ]
      ]

AreTexts-entry_of :
    (name_of : ℕ → List ℕ)
    → ((d : ℕ) → tally 0 (name_of d) ≡ 0)
    → (all : List (ℕ × ℕ)) → AreTexts (map (entry_of name_of) all)
AreTexts-entry_of name_of free [] = tt
AreTexts-entry_of name_of free ((h, d) ∷ all) = (free d, AreTexts-entry_of name_of free all)

sys_opendir_lem :
    {F : Type 0} (fuel thread h : ℕ) (device_name : ℕ → List ℕ) (path : List ℕ)
    (d : SimpleDirectory) (k k1 : Kernel F)
    → opendir fuel device_name path k.vfs ≡ some (some d, k.vfs)
    → register thread (directory d) k ≡ some (h, k1)
    → sys_opendir fuel device_name thread path k ≡ some (h, k1)
unfolding sys_opendir
sys_opendir_lem fuel thread h device_name path d k k1 opens registers =
    rw (sys_opendir, opens) registers

-- On a kernel after the start of its file systems, with a handle left, less than 2 ^ 32 devices and enough
-- fuel: `sys_opendir` of "/dev" by a thread gives a fresh handle, and a thread of its process that calls
-- `sys_readdir` on it until it returns 0 gets one entry for each entry of the table of devices, with
-- the first 62 characters of the device's name.
pub list_directory-sys_opendir :
    {F : Type 0} (process_of : ℕ → ℕ) (cells : List ℕ) (fuel thread reader : ℕ)
    (device_name : ℕ → List ℕ) (devices : Map ℕ) (k : Kernel F)
    → 63 ≤ length cells
    → ((d : ℕ) → tally 0 (device_name d) ≡ 0)
    → weigh (λ h d. 1) (inorder devices.root) < 2 ^ 32
    → weigh (λ h d. 1) (inorder devices.root) < fuel
    → IsKernel k
    → k.om.next_handle + 1 < 2 ^ 64
    → start_filesystems registered (init devices) ≡ some (true, k.vfs)
    → process_of thread ≡ process_of reader
    → (all : List (ℕ × ℕ)) × (k1 : Kernel F) × (k2 : Kernel F) × (sys_opendir fuel device_name
          thread
          (47 ∷ name_dev)
          k
        ≡ some (k.om.next_handle, k1))
      × (list_directory process_of cells fuel reader k.om.next_handle k1
          ≡ some (map (user_entry cells) (map (entry_of device_name) all), k2))
      × ((p : ℕ → ℕ → ℕ) → weigh p all ≡ weigh p (inorder devices.root))
list_directory-sys_opendir process_of cells fuel thread reader device_name devices k room free small
      enough is left started same =
    let (d, all, opens, reads, weight) =
      read_all-open_directory fuel device_name devices small enough in
    let (s, starts, found) = opendir-start_filesystems fuel device_name devices d opens in
    let here : s ≡ k.vfs = ap (λ (r : Bool × Vfs). r.1) (some_inverse (sym starts ∙ started)) in
    let (k1, registers, is1, _, holds, _) = register_lem thread (directory d) k is left in
    let (k2, lists) =
      list_directory_lem process_of cells room fuel thread reader k.om.next_handle d
        (map (entry_of device_name) all) k1 is1 holds same reads
        (AreTexts-entry_of device_name free all) in
    (
      all,
      k1,
      k2,
      sys_opendir_lem fuel thread _ device_name _ d k k1 (rw (← here) found) registers,
      lists,
      weight,
    )
