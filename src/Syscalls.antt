-- ===== src/Syscalls.antt =====
-- kernel/syscall.cpp: the table of system calls, and the calls on files and directories over the object
-- manager, in Syscalls/Handles. `none` is a fault.
pub mod Table
pub mod Handles
pub mod Secure
pub mod Listing
mod Tests
use infos.Prelude.{
  ℕ, zero, suc, ◌+◌, ◌-◌, ◌%◌, ◌^◌, Bool, true, false, Option, none, some, List, [], ◌∷◌, ◌++◌,
  ◌||◌, leb, ◌==◌, if◌then◌else◌, ◌>>=◌, length, get_elem?, set, replicate,
}

-- The functions `sys_nop` to `sys_thread_leave` that are registered.
pub data Syscall : Type 0 where
  call_nop call_yield call_exit : Syscall
  call_open call_close call_read call_write : Syscall
  call_opendir call_readdir call_closedir : Syscall
  call_exec call_wait_proc call_create_thread call_stop_thread call_join_thread : Syscall
  call_usleep call_get_tod call_set_thread_name call_get_ticks : Syscall
  call_pread call_pwrite : Syscall
  call_set_exception_info call_run_exception_test : Syscall
  call_allocate_memory call_release_memory : Syscall
  call_futex_wait call_futex_wake_up : Syscall
  call_thread_id call_thread_leave : Syscall

-- `SyscallManager`; an `int` is its 32 bits.
abbrev pub SyscallManager : Type 0
SyscallManager = List (Option Syscall)

abbrev pub new_manager : SyscallManager
new_manager = replicate 256 none

-- `nr < 0 || nr >= MAX_SYSCALLS`
unfoldable pub is_out_of_range : ℕ → Bool
is_out_of_range nr = leb (2 ^ 31) nr || leb 256 nr

-- `RegisterSyscall`: a write behind the table would be a fault.
unfoldable pub register_syscall : ℕ → Syscall → SyscallManager → Option SyscallManager
unfolding is_out_of_range
register_syscall nr fn table =
    if is_out_of_range nr
    then some table
    else (do _ ← get_elem? table nr; some (set table nr (some fn)))

-- `RegisterDefaultSyscalls`, the registrations in their order.
abbrev pub default_syscalls : List (ℕ × Syscall)
default_syscalls =
    (0, call_nop)
    ∷ (1, call_yield)
    ∷ (2, call_exit)
    ∷ (3, call_open)
    ∷ (4, call_close)
    ∷ (5, call_read)
    ∷ (6, call_write)
    ∷ (7, call_opendir)
    ∷ (8, call_readdir)
    ∷ (9, call_closedir)
    ∷ (10, call_exec)
    ∷ (11, call_wait_proc)
    ∷ (12, call_create_thread)
    ∷ (13, call_stop_thread)
    ∷ (14, call_join_thread)
    ∷ (15, call_usleep)
    ∷ (16, call_get_tod)
    ∷ (17, call_set_thread_name)
    ∷ (18, call_get_ticks)
    ∷ (19, call_pread)
    ∷ (20, call_pwrite)
    ∷ (21, call_set_exception_info)
    ∷ (22, call_run_exception_test)
    ∷ (23, call_allocate_memory)
    ∷ (24, call_release_memory)
    ∷ (25, call_futex_wait)
    ∷ (26, call_futex_wake_up)
    ∷ (27, call_thread_id)
    ∷ (28, call_thread_leave)
    ∷ []

unfoldable pub register_all : List (ℕ × Syscall) → SyscallManager → Option SyscallManager
unfolding register_syscall
register_all [] table = some table
register_all ((nr, fn) ∷ rest) table = do
  table' ← register_syscall nr fn table
  register_all rest table'

unfoldable pub register_default_syscalls : SyscallManager → Option SyscallManager
unfolding register_all
register_default_syscalls table = register_all default_syscalls table

-- A state of the kernel with the flag `in_syscall` of the current thread.
pub record Entered {ℓ} (S : Type ℓ) : Type ℓ where
  pub in_syscall : Bool
  pub kernel : S

-- What a function does: it returns a number, or throws.
abbrev pub Runs {ℓ} : Type ℓ → Type ℓ
Runs S = Syscall → List ℕ → S → Option (Option ℕ × S)

-- Behind a handler: only one that returned is followed by `leave_syscall`.
abbrev pub left {ℓ} : {S : Type ℓ} → Option ℕ × S → Option ℕ × Entered S
left (none, s) = (none, record { in_syscall = true; kernel = s })
left (some ret, s) = (some ret, record { in_syscall = false; kernel = s })

-- `InvokeSyscall`: what it returns, or none if the handler throws.
unfoldable pub invoke_syscall {ℓ} :
    {S : Type ℓ} → Runs S → SyscallManager → ℕ → List ℕ → S → Option (Option ℕ × Entered S)
unfolding is_out_of_range
invoke_syscall run table nr args s = elim (is_out_of_range nr) [
  | true ↦ some (some (2 ^ 64 - 1), record { in_syscall = true; kernel = s })
  | false ↦ do
    fn ← get_elem? table nr
    elim fn [
      | none ↦ some (some (2 ^ 64 - 1), record { in_syscall = false; kernel = s })
      | some f ↦ run f args s >>= λ r. some (left r)
    ]
]
