-- ===== src/Vma/Walks.antt =====
-- The walk of `get_mapping` through the tree of tables.
use infos.Prelude.{
  ℕ, suc, ◌+◌, ◌*◌, ◌≤◌, ◌<◌, ◌≡◌, ◌⊎◌, refl, sym, ap, ◌∙◌, inl, inr, Bool, true, false, Option,
  none, some, List, [], ◌∷◌, if◌then◌else◌, not, length, lt→ltb, arith,
}
use infos.Vma.{Memory, pmem_size, get_walk, MappingFlags, leaf_word}
use infos.Vma.Entry.{
  base_address, flags, set_flag, set_base_address, present, set_present, set_writable,
  set_flag-base_address, set_flag-present, present-set_present, set_base_address-base_address,
}
use infos.Vma.Tables.{entry_at, is_kernel, IsTree, table_bound}

-- Indices into tables of 512 entries.
abbrev pub AreIndices : List ℕ → Type 0
AreIndices [] = Unit {0}
AreIndices (i ∷ is) = (i < 512) × AreIndices is

-- A walk that does not start at a slot of the kernel.
abbrev pub is_user : (ℕ → Bool) → List ℕ → Bool
is_user kernel [] = true
is_user kernel (i ∷ rest) = not (is_kernel kernel (suc (length rest)) i)

pub is_user-below :
    (kernel : ℕ → Bool) (j : ℕ) (rest : List ℕ) → length rest < 3 → is_user kernel (j ∷ rest) ≡ true
is_user-below kernel j rest h = ground arith

pub user_slot :
    (kernel : ℕ → Bool) (level i : ℕ) (rest : List ℕ)
    → level ≡ suc (length rest)
    → is_user kernel (i ∷ rest) ≡ true
    → is_kernel kernel level i ≡ false
user_slot kernel level i rest e user = ground (arith, e, user)

-- What the last level answers for an entry.
abbrev pub frame_of : ℕ → Option ℕ
frame_of word = if present word then some (base_address word) else none

pub get_walk_last :
    (words : ℕ → ℕ) (t i : ℕ)
    → t < pmem_size
    → get_walk words t (i ∷ []) ≡ some (frame_of (words (entry_at t i)))
unfolding get_walk
get_walk_last words t i h = rw (lt→ltb t pmem_size h) refl

pub get_walk_empty :
    (words : ℕ → ℕ) (t i j : ℕ) (rest : List ℕ)
    → t < pmem_size
    → words (entry_at t i) ≡ 0
    → get_walk words t (i ∷ j ∷ rest) ≡ some none
unfolding get_walk
get_walk_empty words t i j rest h w = rw (lt→ltb t pmem_size h, w) refl

pub get_walk_link :
    (words : ℕ → ℕ) (t i j q : ℕ) (rest : List ℕ)
    → t < pmem_size
    → words (entry_at t i) ≡ q * 4096 + 7
    → get_walk words t (i ∷ j ∷ rest) ≡ get_walk words (q * 4096) (j ∷ rest)
unfolding get_walk
get_walk_link words t i j q rest h w =
    let there : present (q * 4096 + 7) ≡ true = ground arith in
    let base : base_address (q * 4096 + 7) ≡ q * 4096 = omega arith in
    rw (lt→ltb t pmem_size h, w, there, base) refl

-- A cleared table maps nothing.
pub get_walk_cleared :
    (words : ℕ → ℕ) (t i : ℕ) (rest : List ℕ)
    → t < pmem_size
    → i < 512
    → ((j : ℕ) → j < 512 → words (entry_at t j) ≡ 0)
    → get_walk words t (i ∷ rest) ≡ some none
get_walk_cleared words t i [] h hi clear =
    get_walk_last words t i h ∙ ap (λ w. some (frame_of w)) (clear i hi)
get_walk_cleared words t i (j ∷ rest) h hi clear = get_walk_empty words t i j rest h (clear i hi)

-- A walk depends on the entries of the tables at its level and below only.
pub get_walk_same :
    (kernel : ℕ → Bool) (kind parent : ℕ → ℕ) (s : Memory) (words : ℕ → ℕ) (t : ℕ) (is : List ℕ)
    (n : ℕ)
    → IsTree kernel kind parent s
    → kind t ≡ length is
    → length is ≤ n
    → AreIndices is
    → is_user kernel is ≡ true
    → ((u j : ℕ)
        → 0 < kind u
        → kind u ≤ n
        → j < 512
        → words (entry_at u j) ≡ s.words (entry_at u j))
    → get_walk words t is ≡ get_walk s.words t is
unfolding get_walk
get_walk_same kernel kind parent s words t [] n tree level le ok user same = refl
get_walk_same kernel kind parent s words t (i ∷ []) n tree level le (hi, ok) user same =
    let (_, bound) = table_bound tree t (omega arith) in
    get_walk_last words t i bound
    ∙ ap (λ w. some (frame_of w)) (same t i (omega arith) (omega arith) hi)
    ∙ sym (get_walk_last s.words t i bound)
get_walk_same kernel kind parent s words t (i ∷ j ∷ rest) n tree level le (hi, ok) user same =
    let (_, bound) = table_bound tree t (omega arith) in
    let kept = same t i (omega arith) (omega arith) hi in
    elim (tree.linked t i (omega arith) hi (user_slot kernel (kind t) i (j ∷ rest) level user)) [
      | inl w ↦
          get_walk_empty words t i j rest bound (kept ∙ w)
          ∙ sym (get_walk_empty s.words t i j rest bound w)
      | inr (q, w, below, _) ↦
          get_walk_link words t i j q rest bound (kept ∙ w)
          ∙ get_walk_same kernel kind parent s words (q * 4096) (j ∷ rest) n tree (omega arith)
              (omega arith) ok (is_user-below kernel j rest (omega (arith, tree.levels t))) same
          ∙ sym (get_walk_link s.words t i j q rest bound w)
    ]

flag_kept :
    (mask word : ℕ) (b : Bool)
    → (mask ≡ 2) ⊎ (mask ≡ 4)
    → (frame : ℕ) → present word ≡ true
    → base_address word ≡ frame
    → (present (if b then set_flag mask word else word) ≡ true)
      × (base_address (if b then set_flag mask word else word) ≡ frame)
flag_kept mask word true h frame there base =
    (set_flag-present mask word h ∙ there, set_flag-base_address mask word (inr h) ∙ base)
flag_kept mask word false h frame there base = (there, base)

-- The entry of a mapping that is present: its frame, with the flags around it.
pub leaf_word_lem :
    (flags : MappingFlags) (pa word : ℕ)
    → flags.is_present ≡ true
    → frame_of (leaf_word flags pa word) ≡ some (base_address pa)
leaf_word_lem flags pa word e =
    let based = set_base_address word pa in
    let w₁ = set_present based in
    let w₂ = if flags.is_writable then set_writable w₁ else w₁ in
    let base₁ : base_address w₁ ≡ base_address pa =
      set_flag-base_address 1 based (inl refl) ∙ set_base_address-base_address word pa in
    let (there₂, base₂) =
      flag_kept 2 w₁ flags.is_writable (inl refl) (base_address pa) (present-set_present based)
        base₁ in
    let (there₃, base₃) = flag_kept 4 w₂ flags.is_user (inr refl) (base_address pa) there₂ base₂ in
    rw (e, there₃, base₃) refl
