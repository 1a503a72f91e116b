-- ===== src/Syscalls/Tests.antt =====
-- System calls at concrete tables and kernels.
use infos.Prelude.{
  ℕ, ◌+◌, ◌-◌, ◌/◌, ◌^◌, ◌≤◌, ◌<◌, ◌≡◌, ◌≢◌, refl, true, false, some, none, List, [], ◌∷◌, ◌>>=◌,
  map, replicate, arith,
}
use infos.Map
use infos.Map.{Map, node, leaf, black, try_get_value}
use infos.Map.Contents.{inorder}
use infos.Map.Iterator.{weigh}
use infos.Objects
use infos.Objects.Laws.{new_manager-IsManager}
use infos.Directories.Laws.{entry_of}
use infos.Vfs.{name_dev}
use infos.Vfs.Boot.{started, start_lem}
use infos.Syscalls.{
  Syscall, SyscallManager, call_open, default_syscalls, new_manager, register_all, Runs, left,
  invoke_syscall,
}
use infos.Syscalls.Table
use infos.Syscalls.Table.{invoke_syscall_lem}
use infos.Syscalls.Handles.{file, Kernel, register, on_file, with_object, sys_opendir}
use infos.Syscalls.Secure.{Holds, IsKernel, with_object-register}
use infos.Syscalls.Listing.{user_entry, list_directory, list_directory-sys_opendir}

-- Every function returns its first argument.
abbrev run : Runs ℕ
run f [] s = some (none, s)
run f (a ∷ args) s = some (some a, s)

invoke_syscall_lem_example :
    (table : SyscallManager) × (register_all default_syscalls new_manager ≡ some table)
    × ((f : Syscall)
        → 3 < 256
        → Table.registered default_syscalls 3 none ≡ some f
        → invoke_syscall run table 3 (7 ∷ []) 0 ≡ (run f (7 ∷ []) 0 >>= λ r. some (left r)))
    × (3 < 256
        → Table.registered default_syscalls 3 none ≡ none
        → invoke_syscall run table 3 (7 ∷ []) 0
          ≡ some (some (2 ^ 64 - 1), record { in_syscall = false; kernel = 0 }))
    × (256 ≤ 3
        → invoke_syscall run table 3 (7 ∷ []) 0
          ≡ some (some (2 ^ 64 - 1), record { in_syscall = true; kernel = 0 }))
invoke_syscall_lem_example = invoke_syscall_lem run default_syscalls 3 (7 ∷ []) 0 (omega arith)

-- The number of `sys_open`.
registered-open : Table.registered default_syscalls 3 none ≡ some call_open
registered-open = refl

-- One device, "a", and a kernel that has started, with files that are numbers.
abbrev devices : Map ℕ
devices = record { root = node black leaf 5 7 leaf; count = 1 }

abbrev device_name : ℕ → List ℕ
device_name d = 97 ∷ []

abbrev process_of : ℕ → ℕ
process_of t = t / 2

abbrev kernel : Kernel ℕ
kernel = record { vfs = started devices; om = Objects.new_manager; objects = [] }

kernel-IsKernel : IsKernel kernel
unfolding Map.empty try_get_value
kernel-IsKernel = record { manager = new_manager-IsManager; inside = λ h od e. cc }

with_object-register_example :
    (k1 : Kernel ℕ) × (register 5 (file 8) kernel ≡ some (1, k1))
    × IsKernel k1
    × (process_of 5 ≡ process_of 4
        → (k2 : Kernel ℕ) × (with_object process_of 0 (on_file (λ f. (f, f + 1))) 4 1 k1
            ≡ some (8, k2))
          × IsKernel k2
          × Holds k2 5 1 (file 9))
    × (process_of 5 ≢ process_of 4
        → with_object process_of 0 (on_file (λ f. (f, f + 1))) 4 1 k1 ≡ some (0, k1))
with_object-register_example =
    with_object-register process_of 0 8 (on_file (λ f. (f, f + 1))) 5 4 (file 8) (file 9) kernel
      kernel-IsKernel (omega arith) refl

abbrev cells : List ℕ
cells = replicate 64 0

list_directory-sys_opendir_example :
    (all : List (ℕ × ℕ)) × (k1 : Kernel ℕ) × (k2 : Kernel ℕ) × (sys_opendir 3 device_name 5
        (47 ∷ name_dev)
        kernel
      ≡ some (1, k1))
    × (list_directory process_of cells 3 4 1 k1
        ≡ some (map (user_entry cells) (map (entry_of device_name) all), k2))
    × ((p : ℕ → ℕ → ℕ) → weigh p all ≡ weigh p (inorder devices.root))
list_directory-sys_opendir_example =
    list_directory-sys_opendir process_of cells 3 5 4 device_name devices kernel (omega arith)
      (λ d. refl) (omega arith) (omega arith) kernel-IsKernel (omega arith) (start_lem devices).0
      refl
