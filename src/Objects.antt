-- ===== src/Objects.antt =====
-- kernel/om.cpp: the object manager, a table of the objects that user threads hold handles of. The
-- table is the map of Map; a thread is an index, and a function gives the process that owns it.
-- `none` of the registration is a fault in the map; NULL is the `none` of a lookup.
pub mod Laws
mod Tests
use infos.Prelude.{ℕ, ◌+◌, ◌%◌, ◌^◌, Option, none, some, ◌==◌, if◌then◌else◌, ◌>>=◌}
use infos.Map
use infos.Map.{Map}

-- `ObjectDescriptor`
pub record Descriptor : Type 0 where
  pub owner : ℕ
  pub object : ℕ

pub record ObjectManager : Type 0 where
  pub next_handle : ℕ
  pub objects : Map Descriptor

abbrev pub new_manager : ObjectManager
new_manager = record { next_handle = 1; objects = Map.empty }

-- `register_object`: the handle, and the manager afterwards.
unfoldable pub register_object : ℕ → ℕ → ObjectManager → Option (ℕ × ObjectManager)
register_object owner obj om = do
  objects ← Map.add om.objects om.next_handle (record { owner = owner; object = obj })
  some (om.next_handle, record { next_handle = (om.next_handle + 1) % 2 ^ 64; objects = objects })

-- What a descriptor gives to a thread: its object, if its owner belongs to the same process.
abbrev pub secure : (ℕ → ℕ) → ℕ → Descriptor → Option ℕ
secure process_of thread od =
    if process_of od.owner == process_of thread then some od.object else none

-- `get_object_secure`
unfoldable pub get_object_secure : (ℕ → ℕ) → ℕ → ℕ → ObjectManager → Option ℕ
get_object_secure process_of thread handle om =
    Map.try_get_value om.objects handle >>= λ od. secure process_of thread od
