-- ===== src/Vma/Range.antt =====
-- The loop of `allocate_virt`: a range of pages onto consecutive frames.
use infos.Prelude.{ℕ, ◌+◌, ◌*◌, ◌/◌, ◌%◌, ◌^◌, ◌<◌, ◌≡◌, ◌≢◌, some}
use infos.Vma.{Memory, get_mapping}
use infos.Vma.Entry.{base_address}

-- Pages `n` from `va` on read back as consecutive frames from `pa` on.
abbrev pub MapsRange : ℕ → ℕ → ℕ → ℕ → Memory → Type 0
MapsRange n pgt va pa s =
    (i : ℕ)
    → i < n
    → get_mapping pgt (va + 4096 * i) s ≡ some (some (base_address (pa + 4096 * i) + va % 4096))

-- An address is on none of the `n` pages from `va` on.
abbrev pub IsOutside : ℕ → ℕ → ℕ → Type 0
IsOutside n va va' = (i : ℕ) → i < n → va' / 4096 % 2 ^ 36 ≢ (va + 4096 * i) / 4096 % 2 ^ 36
