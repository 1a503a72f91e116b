-- ===== src/Syscalls/Table.antt =====
-- The table of system calls after registrations, and calls through it.
use infos.Prelude.{
  ℕ, ◌-◌, ◌^◌, ◌≤◌, ◌<◌, ◌≡◌, refl, ◌∙◌, true, false, Option, none, some, List, [], ◌∷◌, ◌==◌,
  if◌then◌else◌, ◌>>=◌, length, length-set, length-replicate, get_elem?, get_elem?_of_lt, set,
  get_elem?-set, get_elem?-replicate, Bool-cases, inl, inr, arith,
}
use infos.Syscalls.{
  Syscall, SyscallManager, new_manager, is_out_of_range, register_syscall, register_all, Runs, left,
  invoke_syscall,
}

-- The function that was registered last with a number, or the one before all registrations.
abbrev pub registered : List (ℕ × Syscall) → ℕ → Option Syscall → Option Syscall
registered [] nr fn = fn
registered ((i, f) ∷ rest) nr fn = registered rest nr (if i == nr then some f else fn)

-- A table of the size with which it is made takes every registration without a fault.
register_syscall_lem :
    (i : ℕ) (f : Syscall) (table : SyscallManager)
    → length table ≡ 256
    → (table' : SyscallManager) × (register_syscall i f table ≡ some table')
      × (length table' ≡ 256)
      × ((nr : ℕ) (old : Option Syscall)
          → nr < 256
          → get_elem? table nr ≡ some old
          → get_elem? table' nr ≡ some (if i == nr then some f else old))
unfolding register_syscall is_out_of_range
register_syscall_lem i f table size = elim (Bool-cases (is_out_of_range i)) [
  | inl out ↦ (table, rw (register_syscall, out) refl, size, λ nr old h e. ground (arith, out, e))
  | inr inside ↦
      let (_, there) = get_elem?_of_lt table i (ground (arith, inside)) in
      (
        set table i (some f),
        rw (register_syscall, inside, there) refl,
        length-set table i (some f) ∙ size,
        λ nr old h e. ground (arith, get_elem?-set table i nr (some f) there, e),
      )
]

register_all_lem :
    (fns : List (ℕ × Syscall)) (table : SyscallManager)
    → length table ≡ 256
    → (table' : SyscallManager) × (register_all fns table ≡ some table')
      × ((nr : ℕ) (old : Option Syscall)
          → nr < 256
          → get_elem? table nr ≡ some old
          → get_elem? table' nr ≡ some (registered fns nr old))
unfolding register_all
register_all_lem [] table size = (table, refl, λ nr old h e. e)
register_all_lem ((i, f) ∷ fns) table size =
    let (table₁, ends, size₁, reads) = register_syscall_lem i f table size in
    let (table₂, all, reads') = register_all_lem fns table₁ size₁ in
    (
      table₂,
      rw ends all,
      λ nr old h e. reads' nr (if i == nr then some f else old) h (reads nr old h e),
    )

-- Any registrations end without a fault, and after them a call of a number below 256 runs the function
-- that was registered last with it, and behind it leaves the system call unless the function threw;
-- without one it returns -1. Any other number, negative ones with it, returns -1 and does not leave the
-- system call. No call of the table itself is a fault.
pub invoke_syscall_lem {ℓ} :
    {S : Type ℓ} (run : Runs S) (fns : List (ℕ × Syscall)) (nr : ℕ) (args : List ℕ) (s : S)
    → nr < 2 ^ 32
    → (table : SyscallManager) × (register_all fns new_manager ≡ some table)
      × ((f : Syscall)
          → nr < 256
          → registered fns nr none ≡ some f
          → invoke_syscall run table nr args s ≡ (run f args s >>= λ r. some (left r)))
      × (nr < 256
          → registered fns nr none ≡ none
          → invoke_syscall run table nr args s
            ≡ some (some (2 ^ 64 - 1), record { in_syscall = false; kernel = s }))
      × (256 ≤ nr
          → invoke_syscall run table nr args s
            ≡ some (some (2 ^ 64 - 1), record { in_syscall = true; kernel = s }))
unfolding invoke_syscall is_out_of_range
invoke_syscall_lem run fns nr args s w =
    let (table, ends, reads) =
      register_all_lem fns new_manager (length-replicate {A = Option Syscall} 256 none) in
    let at = λ (h : nr < 256). reads nr none h (get_elem?-replicate 256 nr none h) in
    let inside : nr < 256 → is_out_of_range nr ≡ false = λ h. ground arith in
    let outside : 256 ≤ nr → is_out_of_range nr ≡ true = λ h. ground arith in
    (
      table,
      ends,
      (λ f h e. rw (invoke_syscall, inside h, at h, e) refl),
      (λ h e. rw (invoke_syscall, inside h, at h, e) refl),
      λ h. rw (invoke_syscall, outside h) refl,
    )
