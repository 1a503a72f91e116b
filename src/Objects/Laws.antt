-- ===== src/Objects/Laws.antt =====
-- Handles are fresh, and an object is seen by its own process only.
use infos.Prelude.{
  ℕ, ◌+◌, ◌%◌, ◌^◌, ◌≤◌, ◌<◌, ◌≡◌, refl, ap, ◌∙◌, Option, none, some, ◌==◌, if◌then◌else◌, ◌>>=◌,
  Bool, true, false, arith,
}
use infos.Map
use infos.Map.{Map, try_get_value}
use infos.Map.Laws
use infos.Map.Laws.{add_refines, try_get_value-add, empty-IsValid}
use infos.Objects.{
  Descriptor, ObjectManager, new_manager, register_object, secure, get_object_secure,
}

-- The table is a valid map, and no handle from the next one on is in it.
pub record IsManager (om : ObjectManager) : Type 0 where
  pub table : Laws.IsValid om.objects
  pub fresh : (h : ℕ) → om.next_handle ≤ h → try_get_value om.objects h ≡ none

pub new_manager-IsManager : IsManager new_manager
unfolding Map.empty try_get_value
new_manager-IsManager = record { table = empty-IsValid; fresh = λ h le. refl }

pick :
    {A : Type 0} (b : Bool) (x : A) (o : Option A) (f : A → Option ℕ)
    → ((if b then some x else o) >>= f) ≡ (if b then f x else (o >>= f))
pick true x o f = refl
pick false x o f = refl

-- The table after the registration of an object, while handles are left.
pub register_object_table :
    (owner obj : ℕ) (om : ObjectManager)
    → IsManager om
    → om.next_handle + 1 < 2 ^ 64
    → (om' : ObjectManager) × (register_object owner obj om ≡ some (om.next_handle, om'))
      × IsManager om'
      × ((h : ℕ)
          → try_get_value om'.objects h ≡ (
              if om.next_handle == h
              then some (record { owner = owner; object = obj })
              else try_get_value om.objects h))
unfolding register_object
register_object_table owner obj om valid room =
    let od : Descriptor = record { owner = owner; object = obj } in
    let (objects, ends, table, _) = add_refines om.objects om.next_handle od valid.table in
    let reads = λ (h : ℕ). try_get_value-add om.objects om.next_handle h od valid.table ends in
    (
      record { next_handle = (om.next_handle + 1) % 2 ^ 64; objects = objects },
      rw ends refl,
      record { table = table; fresh = λ h le. ground (arith, reads h, valid.fresh h) },
      reads,
    )

-- Registering an object, while handles are left, ends without a fault with a handle that named
-- nothing before. Afterwards the handle gives the object to the threads of its owner's process and
-- NULL to all others, and every other handle gives what it gave.
pub register_object_lem :
    (owner obj : ℕ) (om : ObjectManager)
    → IsManager om
    → om.next_handle + 1 < 2 ^ 64
    → (om' : ObjectManager) × (register_object owner obj om ≡ some (om.next_handle, om'))
      × IsManager om'
      × (try_get_value om.objects om.next_handle ≡ none)
      × ((process_of : ℕ → ℕ) (thread h : ℕ)
          → get_object_secure process_of thread h om' ≡ (
              if om.next_handle == h
              then (if process_of owner == process_of thread then some obj else none)
              else get_object_secure process_of thread h om))
unfolding get_object_secure
register_object_lem owner obj om valid room =
    let (om', ends, valid', reads) = register_object_table owner obj om valid room in
    (
      om',
      ends,
      valid',
      valid.fresh om.next_handle (omega arith),
      λ process_of thread h.
          ap (λ o. o >>= λ d. secure process_of thread d) (reads h)
          ∙ pick (om.next_handle == h) (record { owner = owner; object = obj })
              (try_get_value om.objects h) (secure process_of thread),
    )
