-- ===== src/Devices.antt =====
-- kernel/device-manager.cpp, include/infos/kernel/device-manager.h and the classes of
-- include/infos/drivers/device.h. A device and a class are indices; a function says of which class a
-- device is, and another one what its `init` does: it returns whether it succeeded, and may register more
-- devices. `none` is a fault.
pub mod Names
pub mod Search
mod Tests
use infos.Prelude.{
  ℕ, zero, suc, ◌+◌, ◌%◌, ◌^◌, Bool, true, false, Option, none, some, List, [], ◌∷◌, ◌++◌, ◌==◌,
  if◌then◌else◌, ◌>>=◌, get_elem?, set,
}
use infos.Map
use infos.Map.{Map}
use infos.Map.Iterator.{entries}
use infos.Strings.{of_chars, get_hash, to_string}

pub record DeviceClass : Type 0 where
  pub parent : Option ℕ
  pub name : List ℕ
  pub instance_nr : ℕ

pub record DeviceManager : Type 0 where
  pub devices : Map ℕ
  pub classes : List DeviceClass
  pub names : ℕ → List ℕ

-- `DeviceClass::is`: up the parents. The fuel counts the steps; `none` is a chain that does not end.
unfoldable pub is_class : ℕ → List DeviceClass → ℕ → ℕ → Option Bool
is_class zero classes c type = none
is_class (suc fuel) classes c type = elim (c == type) [
  | true ↦ some true
  | false ↦ get_elem? classes c >>= λ class. elim class.parent [
    | none ↦ some false
    | some parent ↦ is_class fuel classes parent type
  ]
]

-- `acquire_instance`
unfoldable pub acquire_instance : ℕ → DeviceManager → Option (ℕ × DeviceManager)
acquire_instance c dm = do
  class ← get_elem? dm.classes c
  some (
    class.instance_nr,
    record dm {
      classes = set dm.classes c (record class { instance_nr = (class.instance_nr + 1) % 2 ^ 64 });
    },
  )

-- The name that `register_device` makes of a class and an instance; `ToString` takes 32 bits.
unfoldable pub name_for : List ℕ → ℕ → List ℕ
name_for class_name instance_nr = class_name ++ to_string (instance_nr % 2 ^ 32)

abbrev pub hash_of : List ℕ → ℕ
hash_of name = (get_hash (of_chars name)).0

abbrev pub rename : (ℕ → List ℕ) → ℕ → List ℕ → ℕ → List ℕ
rename names device name d = if d == device then name else names d

-- `register_device`
unfoldable pub register_device :
    (ℕ → ℕ)
    → (ℕ → DeviceManager → Option (Bool × DeviceManager))
    → ℕ
    → DeviceManager
    → Option (Bool × DeviceManager)
unfolding acquire_instance name_for
register_device class_of init device dm = do
  class ← get_elem? dm.classes (class_of device)
  (instance_nr, dm') ← acquire_instance (class_of device) dm
  devices ← Map.add dm'.devices (hash_of (name_for class.name instance_nr)) device
  init device (record dm' {
    devices = devices;
    names = rename dm'.names device (name_for class.name instance_nr);
  })

-- `add_device_alias`
unfoldable pub add_device_alias : List ℕ → ℕ → DeviceManager → Option (Bool × DeviceManager)
add_device_alias name device dm = do
  devices ← Map.add dm.devices (hash_of name) device
  some (true, record dm { devices = devices })

-- `try_get_device_by_name`
unfoldable pub try_get_device_by_name : List ℕ → DeviceManager → Option ℕ
try_get_device_by_name name dm = Map.try_get_value dm.devices (hash_of name)

-- The loop of `try_get_device_by_class`, over the entries of the table.
unfoldable pub first_of_class :
    ℕ → List DeviceClass → (ℕ → ℕ) → ℕ → List (ℕ × ℕ) → Option (Option ℕ)
unfolding is_class
first_of_class fuel classes class_of type [] = some none
first_of_class fuel classes class_of type ((h, device) ∷ rest) =
    let further = first_of_class fuel classes class_of type rest in
    is_class fuel classes (class_of device) type >>= λ found.
    if found then some (some device) else further

unfoldable pub try_get_device_by_class : ℕ → (ℕ → ℕ) → ℕ → DeviceManager → Option (Option ℕ)
unfolding first_of_class
try_get_device_by_class fuel class_of type dm = do
  all ← entries fuel dm.devices
  first_of_class fuel dm.classes class_of type all
