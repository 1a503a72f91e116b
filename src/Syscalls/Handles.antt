-- ===== src/Syscalls/Handles.antt =====
-- The calls of kernel/syscall.cpp on files and directories. A pointer to an object is its index in the
-- list of all objects; a function gives the process of a thread, and the methods of a file are those of
-- its class. A buffer of the user is what is stored there. `none` is a fault.
use infos.Prelude.{
  ℕ, ◌-◌, ◌^◌, Option, none, some, List, [], ◌∷◌, ◌++◌, ◌>>=◌, length, get_elem?, set,
}
use infos.Objects.{ObjectManager, register_object, get_object_secure}
use infos.Directories
use infos.Directories.{DirectoryEntry, SimpleDirectory, read_entry}
use infos.Strings.{strncpy}
use infos.Vfs.{Vfs, open_path}
use infos.Vfs.Opendir.{opendir}

-- What a handle's pointer points to.
pub data Object (F : Type 0) : Type 0 where
  file : F → Object F
  directory : SimpleDirectory → Object F
  other : Object F

-- The virtual methods of `File`, on the states of files: what they return, and what they store.
pub record FileMethods (F : Type 0) : Type 0 where
  pub read : ℕ → F → (ℕ × List ℕ) × F
  pub pread : ℕ → ℕ → F → (ℕ × List ℕ) × F
  pub write : List ℕ → F → ℕ × F
  pub pwrite : List ℕ → ℕ → F → ℕ × F
  pub close : F → F

pub record Kernel (F : Type 0) : Type 0 where
  pub vfs : Vfs
  pub om : ObjectManager
  pub objects : List (Object F)

-- What `sys_readdir` stores: 64 cells of the name, the size and the flags.
pub record UserEntry : Type 0 where
  pub name : List ℕ
  pub size : ℕ
  pub flags : ℕ

-- What `sys_readdir` returns and stores for what was read, over the name's cells before.
unfoldable pub stored_entry :
    List ℕ
    → Option DirectoryEntry × SimpleDirectory
    → Option ((ℕ × Option UserEntry) × SimpleDirectory)
stored_entry cells (none, d) = some ((0, none), d)
stored_entry cells (some de, d) = strncpy cells (de.name ++ 0 ∷ []) 63 >>= λ name.
    some ((1, some (record { name = name; size = de.size; flags = 0 })), d)

module _ {F : Type 0} where
  -- `register_object(Thread::current(), obj)` of a new object.
  unfoldable pub register : ℕ → Object F → Kernel F → Option (ℕ × Kernel F)
  register thread obj k = do
    (h, om) ← register_object thread (length k.objects) k.om
    some (h, record k { om = om; objects = k.objects ++ obj ∷ [] })

  -- A method of a file, called on what was cast to one; on another object it is a fault.
  abbrev pub on_file : {R : Type 0} → (F → R × F) → Object F → Option (R × Object F)
  on_file f (file x) = some ((f x).0, file (f x).1)
  on_file f (directory d) = none
  on_file f other = none

  abbrev pub on_directory :
      {R : Type 0}
      → (SimpleDirectory → Option (R × SimpleDirectory))
      → Object F
      → Option (R × Object F)
  on_directory f (file x) = none
  on_directory f (directory d) = f d >>= λ r. some (r.0, directory r.1)
  on_directory f other = none

  -- `sys_open`: the handle, or none if it throws. The functions give the files of the devices.
  unfoldable pub sys_open :
      (ℕ → Option ℕ) → (ℕ → F) → ℕ → List ℕ → Kernel F → Option (Option ℕ × Kernel F)
  unfolding register open_path
  sys_open open_as_file new_file thread path k = do
    (f, vfs) ← open_path open_as_file path k.vfs
    elim f [
      | none ↦ some (none, record k { vfs = vfs })
      | some n ↦ do
        (h, k') ← register thread (file (new_file n)) (record k { vfs = vfs })
        some (some h, k')
    ]

  -- `sys_opendir`: KernelObject::Error is -1.
  unfoldable pub sys_opendir : ℕ → (ℕ → List ℕ) → ℕ → List ℕ → Kernel F → Option (ℕ × Kernel F)
  unfolding register opendir
  sys_opendir fuel device_name thread path k = do
    (d, vfs) ← opendir fuel device_name path k.vfs
    elim d [
      | none ↦ some (2 ^ 64 - 1, record k { vfs = vfs })
      | some dir ↦ register thread (directory dir) (record k { vfs = vfs })
    ]

module _ {F : Type 0} (process_of : ℕ → ℕ) where
  -- The object of a handle, for a thread: what is returned without one, and the call on one.
  unfoldable pub with_object :
      {R : Type 0}
      → R
      → (Object F → Option (R × Object F))
      → ℕ
      → ℕ
      → Kernel F
      → Option (R × Kernel F)
  with_object absent call thread h k = elim (get_object_secure process_of thread h k.om) [
    | none ↦ some (absent, k)
    | some o ↦ do
      obj ← get_elem? k.objects o
      (r, obj') ← call obj
      some (r, record k { objects = set k.objects o obj' })
  ]

  module _ (methods : FileMethods F) where
    unfoldable pub sys_close : ℕ → ℕ → Kernel F → Option (ℕ × Kernel F)
    unfolding with_object
    sys_close = with_object (2 ^ 32 - 1) (on_file (λ f. (0, methods.close f)))

    unfoldable pub sys_read : ℕ → ℕ → ℕ → Kernel F → Option ((ℕ × List ℕ) × Kernel F)
    unfolding with_object
    sys_read size = with_object (2 ^ 32 - 1, []) (on_file (methods.read size))

    unfoldable pub sys_write : List ℕ → ℕ → ℕ → Kernel F → Option (ℕ × Kernel F)
    unfolding with_object
    sys_write buffer = with_object (2 ^ 32 - 1) (on_file (methods.write buffer))

    unfoldable pub sys_pread : ℕ → ℕ → ℕ → ℕ → Kernel F → Option ((ℕ × List ℕ) × Kernel F)
    unfolding with_object
    sys_pread size off = with_object (2 ^ 32 - 1, []) (on_file (methods.pread size off))

    unfoldable pub sys_pwrite : List ℕ → ℕ → ℕ → ℕ → Kernel F → Option (ℕ × Kernel F)
    unfolding with_object
    sys_pwrite buffer off = with_object (2 ^ 32 - 1) (on_file (methods.pwrite buffer off))

  unfoldable pub sys_closedir : ℕ → ℕ → Kernel F → Option (ℕ × Kernel F)
  unfolding with_object
  sys_closedir = with_object (2 ^ 32 - 1) (on_directory (λ d. some (0, Directories.close d)))

  unfoldable pub sys_readdir :
      List ℕ → ℕ → ℕ → Kernel F → Option ((ℕ × Option UserEntry) × Kernel F)
  unfolding with_object stored_entry
  sys_readdir cells =
      with_object (0, none) (on_directory (λ d. read_entry d >>= λ r. stored_entry cells r))
