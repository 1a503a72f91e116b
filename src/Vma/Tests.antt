-- ===== src/Vma/Tests.antt =====
-- Page tables at concrete inputs.
use infos.Prelude.{ℕ, ◌+◌, ◌*◌, ◌≡◌, ◌==◌, if◌then◌else◌, refl, none, some, [], ◌∷◌}
use infos.PageAlloc
use infos.PageAlloc.{PageType, reserved, available, allocated}
use infos.Vma.{
  log2ceil, all_flags, Memory, allocate_phys, insert_mapping, insert_walk, get_walk, MappingFlags,
}

abbrev memory : Memory
memory = record {
  words = λ b. 77;
  pages =
      reserved ∷ available ∷ available ∷ available ∷ available ∷ available ∷ available ∷ available
      ∷ [];
  allocations = [];
}

abbrev with_table : Memory
with_table = record {
  words = infos.Vma.zeroed (λ b. 77) 4096 4096;
  pages =
      reserved ∷ allocated ∷ available ∷ available ∷ available ∷ available ∷ available ∷ available
      ∷ [];
  allocations = (1, 0) ∷ [];
}

-- The table as a process has it, with the kernel's links to pages 30 and 31 in the last slot and slot 256.
abbrev template : ℕ → ℕ
template i = if i == 511 then 30 * 4096 + 3 else 31 * 4096 + 3

abbrev with_kernel : Memory
with_kernel = record with_table {
  words =
      infos.Vma.store (infos.Vma.store with_table.words (4096 + 8 * 511) (template 511))
        (4096 + 8 * 256) (template 256);
}

kernel_link : with_kernel.words (4096 + 8 * 511) ≡ 30 * 4096 + 3
kernel_link = refl

abbrev mapped : Memory
mapped = elim (insert_mapping 4096 4198400 12345678 all_flags with_kernel) [
  | some s ↦ s
  | none ↦ with_kernel
]

log2ceil_five : log2ceil 5 ≡ 3
unfolding log2ceil
log2ceil_five = refl
