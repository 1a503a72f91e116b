-- ===== src/Vma/Entry.antt =====
-- mm/vma.cpp: `MMUTableEntry`, a 64-bit word with a frame's address above twelve bits of flags.
-- Masks are written as arithmetic: `x & 0xfff` is `x % 4096`, and `x & ~0xfff` clears those bits.
use infos.Prelude.{
  ℕ, ◌+◌, ◌*◌, ◌/◌, ◌%◌, ◌≡◌, ◌⊎◌, inl, inr, Bool, true, ◌==◌, if◌then◌else◌, arith,
}

abbrev pub base_address : ℕ → ℕ
base_address bits = bits / 4096 * 4096

abbrev pub flags : ℕ → ℕ
flags bits = bits % 4096

-- `base_address(addr)`
abbrev pub set_base_address : ℕ → ℕ → ℕ
set_base_address bits addr = flags bits + base_address addr

-- `get_flag(idx)`, `idx` as a power of two.
abbrev pub get_flag : ℕ → ℕ → Bool
get_flag mask bits = flags bits / mask % 2 == 1

-- `set_flag(idx, true)`
abbrev pub set_flag : ℕ → ℕ → ℕ
set_flag mask bits = if get_flag mask bits then bits else bits + mask

abbrev pub present : ℕ → Bool
present bits = get_flag 1 bits

abbrev pub set_present : ℕ → ℕ
set_present bits = set_flag 1 bits

abbrev pub set_writable : ℕ → ℕ
set_writable bits = set_flag 2 bits

abbrev pub set_user : ℕ → ℕ
set_user bits = set_flag 4 bits

-- The entry that `insert_mapping` makes for a new table.
pub table_entry :
    (q : ℕ) → set_user (set_writable (set_present (set_base_address 0 (q * 4096)))) ≡ q * 4096 + 7
table_entry q = ground arith

pub set_flag-base_address :
    (mask bits : ℕ)
    → (mask ≡ 1) ⊎ ((mask ≡ 2) ⊎ (mask ≡ 4))
    → base_address (set_flag mask bits) ≡ base_address bits
set_flag-base_address mask bits (inl e) = ground arith
set_flag-base_address mask bits (inr (inl e)) = ground arith
set_flag-base_address mask bits (inr (inr e)) = ground arith

pub present-set_present : (bits : ℕ) → present (set_present bits) ≡ true
present-set_present bits = ground arith

-- Another flag leaves `present` as it is.
pub set_flag-present :
    (mask bits : ℕ) → (mask ≡ 2) ⊎ (mask ≡ 4) → present (set_flag mask bits) ≡ present bits
set_flag-present mask bits (inl e) = ground arith
set_flag-present mask bits (inr e) = ground arith

pub set_base_address-base_address :
    (bits addr : ℕ) → base_address (set_base_address bits addr) ≡ base_address addr
set_base_address-base_address bits addr = omega arith
